-- ===== src/Context/Budget.antt =====
-- context_engine.py: the sizes of what the allocator assembles.
use mathlib.Core.Path.{ap₂}
use bastet_agent_os.Prelude.{
  ℕ, zero, suc, ◌+◌, ◌-◌, ◌*◌, ◌≤◌, ◌<◌, String, ◌≡◌, refl, ap, inl, inr, true, false, List, [],
  ◌∷◌, ◌++◌, map, contains, leb, eqb, ltb, length, length-append, Bool-cases, arith,
}
use bastet_agent_os.Context.{
  Call, Section, take, clip_mark, rollover, Note, skipped, not_relevant, empty, over_budget,
  section, buckets, tokens, clip, relevant, allowance, decide, cost, allocate, join, build_context,
}

-- The tokens that all sections take together, and the characters of all parts.
unfoldable pub total : List Section → ℕ
total [] = 0
total (s ∷ sections) = cost s + total sections

unfoldable pub chars : List (List ℕ) → ℕ
chars [] = 0
chars (p ∷ parts) = length p + chars parts

record Fits (parts : List (List ℕ)) (sections : List Section) (limit : ℕ) : Type 0 where
  pub within : total sections ≤ limit
  pub sized : chars parts + length parts ≤ 4 * total sections
  pub one_each : length parts ≤ length sections

-- One decision.
record FitsOne (bucket : String) (remaining : ℕ) (out : List (List ℕ) × Section) : Type 0 where
  pub within : cost out.1 ≤ remaining
  pub sized : chars out.0 + length out.0 ≤ 4 * cost out.1
  pub one : length out.0 ≤ 1
  pub named : out.1.bucket ≡ bucket

left_out :
    (bucket : String) (remaining used : ℕ) (note : Note)
    → FitsOne bucket remaining ([], section bucket false used note)
unfolding cost chars
left_out bucket remaining used note = record {
  within = omega arith;
  sized = omega arith;
  one = omega arith;
  named = refl;
}

decide-FitsOne :
    (call : Call) (bucket : String) (remaining : ℕ)
    → FitsOne bucket remaining (decide call bucket remaining)
unfolding decide cost chars tokens
decide-FitsOne call bucket remaining = elim (Bool-cases (contains bucket call.skip)) [
  | inl e ↦ simp (decide, e) (left_out bucket remaining 0 skipped)
  | inr e ↦ elim (Bool-cases (relevant bucket call.stage_name call.role)) [
    | inr r ↦ simp (decide, e, r) (left_out bucket remaining 0 not_relevant)
    | inl r ↦ elim (Bool-cases (eqb (length (call.gather bucket)) 0)) [
      | inl z ↦ simp (decide, e, r, z) (left_out bucket remaining 0 empty)
      | inr z ↦
          elim (Bool-cases (
            ltb remaining (tokens (clip (call.gather bucket) (allowance call bucket remaining))))) [
              | inl over ↦ simp (decide, e, r, z, over) (left_out bucket remaining _ over_budget)
              | inr fits ↦
                  simp (decide, e, r, z, fits)
                    (record {
                      within = ground arith;
                      sized = omega arith;
                      one = omega arith;
                      named = refl;
                    })
            ]
    ]
  ]
]

chars-append : (ps qs : List (List ℕ)) → chars (ps ++ qs) ≡ chars ps + chars qs
unfolding chars
chars-append [] qs = omega arith
chars-append (p ∷ ps) qs = omega (arith, chars-append ps qs)

allocate-Fits :
    (call : Call) (bs : List String) (remaining : ℕ)
    → Fits (allocate call bs remaining).0 (allocate call bs remaining).1 remaining
unfolding allocate total chars
allocate-Fits call [] remaining = record {
  within = omega arith;
  sized = omega arith;
  one_each = omega arith;
}
allocate-Fits call (bucket ∷ bs) remaining =
    let one = decide-FitsOne call bucket remaining in
    let (ps, s) = decide call bucket remaining in
    let (qs, ss) = allocate call bs (remaining - cost s) in
    let rest = allocate-Fits call bs (remaining - cost s) in
    record {
      within = omega (arith, one.within, rest.within);
      sized = omega (arith, one.sized, rest.sized, chars-append ps qs, length-append ps qs);
      one_each = omega (arith, one.one, rest.one_each, length-append ps qs);
    }

allocate-buckets :
    (call : Call) (bs : List String) (remaining : ℕ)
    → map (λ s. s.bucket) (allocate call bs remaining).1 ≡ bs
unfolding allocate
allocate-buckets call [] remaining = refl
allocate-buckets call (bucket ∷ bs) remaining =
    ap₂ ◌∷◌ (decide-FitsOne call bucket remaining).named (allocate-buckets call bs _)

length-join : (parts : List (List ℕ)) → length (join parts) ≤ chars parts + 2 * (length parts - 1)
unfolding join chars
length-join [] = omega arith
length-join (p ∷ []) = omega arith
length-join (p ∷ q ∷ parts) =
    omega (arith, length-append p (10 ∷ 10 ∷ join (q ∷ parts)), length-join (q ∷ parts))

length-map : (ss : List Section) → length (map (λ s. s.bucket) ss) ≡ length ss
length-map [] = refl
length-map (s ∷ ss) = ap suc (length-map ss)

seven : (ss : List Section) → map (λ s. s.bucket) ss ≡ buckets → length ss ≡ 7
seven ss h = omega (arith, length-map ss, ap length h)

-- However large the sources are, the report has one section for each bucket, in their order; the
-- sections that are included take no more tokens than the budget; and the whole text, with the blank
-- lines between its parts, has at most four characters for each token of the budget and five more.
pub build_context-fits :
    (call : Call) (budget_tokens : ℕ)
    → let (text, sections) = build_context call budget_tokens in
      (map (λ s. s.bucket) sections ≡ buckets)
      × (total sections ≤ budget_tokens)
      × (length text ≤ 4 * budget_tokens + 5)
unfolding build_context
build_context-fits call budget_tokens =
    let (parts, sections) = allocate call buckets budget_tokens in
    let fits = allocate-Fits call buckets budget_tokens in
    let names = allocate-buckets call buckets budget_tokens in
    (
      names,
      fits.within,
      omega
          (arith, fits.within, fits.sized, fits.one_each, length-join parts, seven sections names),
    )

length-take : (n : ℕ) (text : List ℕ) → n ≤ length text → length (take n text) ≡ n
unfolding take
length-take zero text l = refl
length-take (suc n) [] l = let bad : ⊥ = omega arith in absurd bad
length-take (suc n) (c ∷ text) l = omega (arith, length-take n text (omega arith))

clip-tokens : (text : List ℕ) (n : ℕ) → 4 * n < length text → n < tokens (clip text n)
unfolding clip tokens
clip-tokens text n l = elim (Bool-cases (leb (length text) (n * 4))) [
  | inl e ↦ let bad : ⊥ = ground (arith, e, l) in absurd bad
  | inr e ↦ simp e (
      omega (
        arith,
        length-append (take (n * 4) text) clip_mark,
        length-take (n * 4) text (omega arith),
      ))
]

not_empty : (text : List ℕ) (n : ℕ) → 4 * n < length text → eqb (length text) 0 ≡ false
not_empty text n l = ground arith

lt→ltb : (a b : ℕ) → a < b → ltb a b ≡ true
lt→ltb a b l = ground arith

all_of :
    (call : Call) (bucket : String) (remaining : ℕ)
    → remaining ≤ call.share bucket + (remaining - call.expected_remaining bucket)
    → allowance call bucket remaining ≡ remaining
unfolding allowance rollover
all_of call bucket remaining h = omega arith

-- A bucket whose allowance is all that remains of the budget, and whose text is larger than that, is
-- left out as over budget and is not shortened to fit.
pub decide-over_budget :
    (call : Call) (bucket : String) (remaining : ℕ)
    → contains bucket call.skip ≡ false
    → relevant bucket call.stage_name call.role ≡ true
    → remaining ≤ call.share bucket + (remaining - call.expected_remaining bucket)
    → 4 * remaining < length (call.gather bucket)
    → ((decide call bucket remaining).0 ≡ [])
      × ((decide call bucket remaining).1.note ≡ over_budget)
unfolding decide
decide-over_budget call bucket remaining taken role all large =
    let used = clip-tokens (call.gather bucket) remaining large in
    simp
      (
        decide,
        taken,
        role,
        not_empty (call.gather bucket) remaining large,
        all_of call bucket remaining all,
        lt→ltb remaining (tokens (clip (call.gather bucket) remaining)) used,
      )
      (refl, refl)
