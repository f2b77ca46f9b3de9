-- ===== src/TaskPlan/RoundTrip.antt =====
-- project_lifecycle.py: a normalized plan, saved and normalized again.
use mathlib.Core.Path.{subst}
use bastet_agent_os.Prelude.{
  ℕ, ◌+◌, String, ◌≡◌, refl, sym, ap, inl, inr, eq_iff, Bool, true, false, List, [], ◌∷◌, map,
  Option, none, some, Result, ok, err, >>=-eq-ok, >>-eq-ok, for_each, ◌==◌, any, contains,
  contains-head, IsNodup, All, Bool-cases, Option-cases, arith, dedup, dedup_onto,
}
use bastet_agent_os.Prelude.Text.{strip}
use bastet_agent_os.Prelude.Strip.{strip_idem}
use bastet_agent_os.TaskPlan.{stored}
use bastet_agent_os.TaskPlan.Ids.{is_task_id}
use bastet_agent_os.TaskPlan.Normalize.{
  Dependency, name, other, RawNeeds, missing, null, not_list, needs, bad_needs, Task, Item, object,
  other_item, PlanError, names_of, needs_for, id_of, with_needs, after_previous, has_needs,
  normalize_items, ids, check_references, check_graph, normalize_task_graph,
}
use bastet_agent_os.TaskPlan.WellFormed.{normalize_items-AreFresh}
use bastet_agent_os.TaskPlan.Again.{IsNormal, normalize_items-stored}

-- A name as the comprehension leaves it.
abbrev IsName : String → Type 0
IsName d = (strip d ≡ d) × ((d == "") ≡ false)

names_of-IsName :
    (ds : List Dependency) (out : List String) → names_of ds ≡ some out → All IsName out
unfolding names_of
names_of-IsName [] out h =
    let same : ◌≡◌ {A = List String} [] out = cc in subst (All IsName) same tt
names_of-IsName (other ∷ ds) out h = let bad : ⊥ = cc in absurd bad
names_of-IsName (name d ∷ ds) out h = elim (Option-cases (names_of ds)) [
  | inl e ↦ let bad : ⊥ = cc (simp e at h) in absurd bad
  | inr (rest, e) ↦
      let more = names_of-IsName ds rest e in
      elim (Bool-cases (strip d == "")) [
        | inl z ↦ let same : rest ≡ out = cc (simp (e, z) at h) in subst (All IsName) same more
        | inr z ↦
            let same : strip d ∷ rest ≡ out = cc (simp (e, z) at h) in
            subst (All IsName) same ((strip_idem d, z), more)
      ]
]

names_of-again : (ns : List String) → All IsName ns → names_of (map name ns) ≡ some ns
unfolding names_of
names_of-again [] h = refl
names_of-again (d ∷ ns) ((s, z), h) = simp (s, z, names_of-again ns h) refl

dedup_onto-All : (seen xs : List String) → All IsName xs → All IsName (dedup_onto seen xs)
dedup_onto-All seen [] h = tt
dedup_onto-All seen (x ∷ xs) (p, h) = elim (Bool-cases (contains x seen)) [
  | inl e ↦ rw e (dedup_onto-All seen xs h)
  | inr e ↦ rw e (p, dedup_onto-All (x ∷ seen) xs h)
]

dedup_onto-absent :
    (seen xs : List String) (a : String)
    → contains a seen ≡ true
    → contains a (dedup_onto seen xs) ≡ false
dedup_onto-absent seen [] a h = refl
dedup_onto-absent seen (x ∷ xs) a h = elim (Bool-cases (contains x seen)) [
  | inl e ↦ simp e (dedup_onto-absent seen xs a h)
  | inr e ↦ elim (Bool-cases (a == x)) [
    | inl q ↦
        let same : a ≡ x = (eq_iff a x).0 q in
        let bad : ⊥ = cc (subst (λ y. contains y seen ≡ true) same h, e) in absurd bad
    | inr q ↦ simp (e, q) (dedup_onto-absent (x ∷ seen) xs a (ground (arith, h)))
  ]
]

dedup_onto-IsNodup : (seen xs : List String) → IsNodup (dedup_onto seen xs)
dedup_onto-IsNodup seen [] = tt
dedup_onto-IsNodup seen (x ∷ xs) = elim (Bool-cases (contains x seen)) [
  | inl e ↦ rw e (dedup_onto-IsNodup seen xs)
  | inr e ↦
      rw e
        (dedup_onto-absent (x ∷ seen) xs x (contains-head x seen), dedup_onto-IsNodup (x ∷ seen) xs)
]

not_seen :
    (x : String) (seen xs : List String)
    → contains x xs ≡ false
    → All (λ y. contains y seen ≡ false) xs
    → All (λ y. contains y (x ∷ seen) ≡ false) xs
not_seen x seen [] n h = tt
not_seen x seen (y ∷ ys) n (p, h) =
    (ground (arith, p, n, eq_iff y x, eq_iff x y), not_seen x seen ys (ground (arith, n)) h)

nothing_seen : (xs : List String) → All (λ y. contains y [] ≡ false) xs
nothing_seen [] = tt
nothing_seen (x ∷ xs) = (refl, nothing_seen xs)

-- Distinct texts, none of which was seen, stay.
dedup_onto-id :
    (seen xs : List String)
    → IsNodup xs
    → All (λ x. contains x seen ≡ false) xs
    → dedup_onto seen xs ≡ xs
dedup_onto-id seen [] nd h = refl
dedup_onto-id seen (x ∷ xs) (n, nd) (p, h) =
    rw p (ap (λ ys. x ∷ ys) (dedup_onto-id (x ∷ seen) xs nd (not_seen x seen xs n h)))

dedup_idem : (xs : List String) → dedup (dedup xs) ≡ dedup xs
dedup_idem xs = dedup_onto-id [] (dedup xs) (dedup_onto-IsNodup [] xs) (nothing_seen (dedup xs))

names_for :
    (id : String) (ds : List Dependency) (out : List String)
    → ◌≡◌ {A = Result PlanError (List String)}
        (elim (names_of ds) [ none ↦ err (bad_needs id) | some names ↦ ok (dedup names) ])
        (ok out)
    → (names_of (map name out) ≡ some out) × (dedup out ≡ out)
names_for id ds out h = elim (Option-cases (names_of ds)) [
  | inl e ↦ let bad : ⊥ = cc (simp e at h) in absurd bad
  | inr (names, e) ↦
      let same : dedup names ≡ out = cc (simp e at h) in
      subst (λ ns. (names_of (map name ns) ≡ some ns) × (dedup ns ≡ ns)) same
        (
          names_of-again (dedup names) (dedup_onto-All [] names (names_of-IsName ds names e)),
          dedup_idem names,
        )
]

needs_for-normal :
    (native : Bool) (previous : Option String) (id : String) (raw : RawNeeds) (out : List String)
    → needs_for native previous id raw ≡ ok out
    → (names_of (map name out) ≡ some out) × (dedup out ≡ out)
unfolding needs_for
needs_for-normal native previous id missing out h =
    names_for id (map name (after_previous native previous)) out h
needs_for-normal native previous id null out h =
    names_for id (map name (after_previous native previous)) out h
needs_for-normal native previous id not_list out h = let bad : ⊥ = cc in absurd bad
needs_for-normal native previous id (needs ds) out h = names_for id ds out h

abbrev pub HasForm : Task → Type 0
HasForm t = is_task_id t.id ≡ true

normalize_items-IsNormal :
    (native : Bool) (index : ℕ) (previous : Option String) (used : List String) (items : List Item)
    (tasks : List Task)
    → normalize_items native index previous used items ≡ ok tasks
    → All HasForm tasks
    → All IsNormal tasks
unfolding normalize_items
normalize_items-IsNormal native index previous used [] tasks h =
    let same : ◌≡◌ {A = List Task} [] tasks = cc in
    subst (λ ts. All HasForm ts → All IsNormal ts) same (λ f. tt)
normalize_items-IsNormal native index previous used (other_item ∷ items) tasks h =
    let bad : ⊥ = cc in absurd bad
normalize_items-IsNormal native index previous used (object t ∷ items) tasks h =
    let (id, e, h1) = >>=-eq-ok (id_of index used t) _ h in
    let (ds, d, h2) = >>=-eq-ok (needs_for native previous id t.needs) _ h1 in
    let (rest, r, h3) =
      >>=-eq-ok (normalize_items native (index + 1) (some id) (id ∷ used) items) _ h2 in
    let same : with_needs id ds t ∷ rest ≡ tasks = cc in
    let (texts, distinct) = needs_for-normal native previous id t.needs ds d in
    subst (λ ts. All HasForm ts → All IsNormal ts) same
      (λ (f, fs). (
        record { id_form = f; texts = texts; distinct = distinct },
        normalize_items-IsNormal native (index + 1) (some id) (id ∷ used) items rest r fs,
      ))

unused_nothing : (tasks : List Task) → All (λ t. contains t.id [] ≡ false) tasks
unused_nothing [] = tt
unused_nothing (t ∷ tasks) = (refl, unused_nothing tasks)

-- What `normalize_task_graph` returned, stored and normalized again, is what it was, wherever the ids
-- have the form that a given id must have.
pub normalize_task_graph-stored :
    (items : List Item) (tasks : List Task)
    → normalize_task_graph items ≡ ok tasks
    → All HasForm tasks
    → normalize_task_graph (map object (map stored tasks)) ≡ ok tasks
unfolding normalize_task_graph
normalize_task_graph-stored items tasks h form =
    let (ts, n, h1) = >>=-eq-ok (normalize_items (any has_needs items) 0 none [] items) _ h in
    let ((_, r), h2) = >>-eq-ok (for_each (check_references (ids ts)) ts) _ h1 in
    let ((_, g), h3) = >>-eq-ok (check_graph ts) _ h2 in
    let same : ts ≡ tasks = cc in
    let normal =
      normalize_items-IsNormal (any has_needs items) 0 none [] items ts n
        (subst (All HasForm) (sym same) form) in
    let distinct = (normalize_items-AreFresh (any has_needs items) 0 none [] items ts n).distinct in
    subst (λ us. normalize_task_graph (map object (map stored us)) ≡ ok us) same
      (simp
        (
          normalize_task_graph,
          normalize_items-stored (any has_needs (map object (map stored ts))) 0 none [] ts normal
              distinct (unused_nothing ts),
          r,
          g,
        )
        refl)
