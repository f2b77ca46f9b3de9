-- ===== src/Context.antt =====
-- context_engine.py: the allocator of a run's context. A text is the list of its code points. The
-- products of the budget with the shares are arguments, since they are made with floats: for each
-- bucket `int(budget * fraction)` and `int(budget * (1 - planned_before))`. What `_gather` returns for
-- each bucket is an argument too, since it comes from the database and from a service.
pub mod Budget
mod Tests
use bastet_agent_os.Prelude.{
  ℕ, zero, suc, ◌+◌, ◌-◌, ◌*◌, ◌/◌, min, String, Bool, true, false, not, ◌&&◌, ◌||◌, List, [], ◌∷◌,
  ◌++◌, map, any, contains, leb, ltb, eqb, ◌==◌, length, if◌then◌else◌,
}
use bastet_agent_os.Prelude.Text.{codes, lower_code, occurs_in}

abbrev pub chars_per_token : ℕ
chars_per_token = 4

abbrev pub buckets : List String
buckets = "spec" ∷ "handoff" ∷ "history" ∷ "test_evidence" ∷ "room" ∷ "deps" ∷ "memory" ∷ []

-- `_tokens`
unfoldable pub tokens : List ℕ → ℕ
tokens text = length text / chars_per_token + 1

-- `text[:n]`
unfoldable pub take : ℕ → List ℕ → List ℕ
take zero text = []
take (suc n) [] = []
take (suc n) (c ∷ text) = c ∷ take n text

-- `"\n…[clipped]"`
abbrev pub clip_mark : List ℕ
clip_mark = codes "\n…[clipped]"

unfoldable pub clip : List ℕ → ℕ → List ℕ
unfolding take
clip text budget_tokens =
    let limit = budget_tokens * chars_per_token in
    if leb (length text) limit then text else take limit text ++ clip_mark

-- Why a section is in the report as it is.
pub data Note : Type 0 where
  skipped not_relevant empty over_budget clipped whole : Note

pub record Section : Type 0 where
  pub bucket : String
  pub included : Bool
  pub tokens : ℕ
  pub note : Note

abbrev pub section : String → Bool → ℕ → Note → Section
section bucket included tokens note = record {
  bucket = bucket;
  included = included;
  tokens = tokens;
  note = note;
}

abbrev label_of : String → String → List ℕ
label_of stage_name role = map lower_code (codes stage_name ++ 32 ∷ codes role)

abbrev mentions : List String → List ℕ → Bool
mentions words label = any (λ w. occurs_in (codes w) label) words

-- `_relevant`
unfoldable pub relevant : String → String → String → Bool
unfolding occurs_in lower_code
relevant bucket stage_name role =
    if bucket == "test_evidence"
    then mentions ("test" ∷ "qa" ∷ "review" ∷ "驗" ∷ "測" ∷ "審" ∷ []) (label_of stage_name role)
    else if bucket == "room"
    then mentions ("pm" ∷ "plan" ∷ "review" ∷ "lead" ∷ "整合" ∷ "審" ∷ []) (label_of stage_name role)
    else true

-- What a call is given.
pub record Call : Type 0 where
  pub share : String → ℕ
  pub expected_remaining : String → ℕ
  pub skip : List String
  pub stage_name : String
  pub role : String
  pub gather : String → List ℕ

-- `_rollover`; the difference stops at 0, as `max(0, ...)` does.
unfoldable pub rollover : Call → String → ℕ → ℕ
rollover call bucket remaining = remaining - call.expected_remaining bucket

unfoldable pub allowance : Call → String → ℕ → ℕ
unfolding rollover
allowance call bucket remaining = min remaining (call.share bucket + rollover call bucket remaining)

unfoldable pub same_text : List ℕ → List ℕ → Bool
same_text [] [] = true
same_text [] (_ ∷ _) = false
same_text (_ ∷ _) [] = false
same_text (x ∷ xs) (y ∷ ys) = let rest = same_text xs ys in eqb x y && rest

-- The decision on one bucket: the part that goes in, if any, and its section.
unfoldable pub decide : Call → String → ℕ → List (List ℕ) × Section
unfolding relevant tokens clip allowance same_text
decide call bucket remaining =
    let text = call.gather bucket in
    let shortened = clip text (allowance call bucket remaining) in
    let used = tokens shortened in
    if contains bucket call.skip
    then ([], section bucket false 0 skipped)
    else if not (relevant bucket call.stage_name call.role)
    then ([], section bucket false 0 not_relevant)
    else if eqb (length text) 0
    then ([], section bucket false 0 empty)
    else if ltb remaining used
    then ([], section bucket false used over_budget)
    else (
      shortened ∷ [],
      section bucket true used (if same_text shortened text then whole else clipped),
    )

-- The tokens that a section takes from the budget.
unfoldable pub cost : Section → ℕ
cost s = if s.included then s.tokens else 0

unfoldable pub allocate : Call → List String → ℕ → List (List ℕ) × List Section
unfolding decide cost
allocate call [] remaining = ([], [])
allocate call (bucket ∷ rest) remaining =
    let (part, s) = decide call bucket remaining in
    let (parts, sections) = allocate call rest (remaining - cost s) in (part ++ parts, s ∷ sections)

-- `"\n\n".join(parts)`
unfoldable pub join : List (List ℕ) → List ℕ
join [] = []
join (part ∷ []) = part
join (part ∷ next ∷ parts) = part ++ 10 ∷ 10 ∷ join (next ∷ parts)

unfoldable pub build_context : Call → ℕ → List ℕ × List Section
unfolding allocate join
build_context call budget_tokens =
    let (parts, sections) = allocate call buckets budget_tokens in (join parts, sections)
