-- ===== src/TaskPlan/Again.antt =====
-- project_lifecycle.py: `normalize_task_graph` on the tasks of a stored plan.
use mathlib.Core.Path.{subst}
use Prim.Native.Char.{Char, code}
use bastet_agent_os.Prelude.{
  ℕ, zero, suc, ◌+◌, String, ◌≡◌, refl, ap, ◌∙◌, inl, inr, eq_iff, Bool, true, false, List, [], ◌∷◌,
  map, Option, some, ok, ◌==◌, contains, IsNodup, All, Bool-cases, &&-eq-true, arith, dedup,
}
use bastet_agent_os.Prelude.Text.{strip, lstrip, rstrip, is_space}
use bastet_agent_os.Prelude.Strip.{rstrip-keep}
use bastet_agent_os.TaskPlan.{stored}
use bastet_agent_os.TaskPlan.Ids.{is_task_id, rest_is_id, is_alnum, is_id_char}
use bastet_agent_os.TaskPlan.Normalize.{
  name, needs, Task, object, names_of, needs_for, id_of, normalize_items, ids,
}

-- A character of an id is no white space, so an id is as `strip` leaves it.
id_char-not_space : (c : Char) → is_id_char c ≡ true → is_space (code c) ≡ false
unfolding is_space
id_char-not_space c h = ground arith

rstrip_id : (n : ℕ) (s : String) → rest_is_id n s ≡ true → rstrip s ≡ s
unfolding rest_is_id rstrip
rstrip_id n String.[] h = refl
rstrip_id zero (String.◌∷◌ c s) h = let bad : ⊥ = cc in absurd bad
rstrip_id (suc n) (String.◌∷◌ c s) h =
    let (ok_char, more) = &&-eq-true (is_id_char c) (rest_is_id n s) h in
    rstrip-keep c s (id_char-not_space c ok_char) ∙ ap (λ x. String.◌∷◌ c x) (rstrip_id n s more)

strip_id : (s : String) → is_task_id s ≡ true → strip s ≡ s
unfolding is_task_id strip lstrip
strip_id String.[] h = let bad : ⊥ = cc in absurd bad
strip_id (String.◌∷◌ c s) h =
    let (ok_char, more) = &&-eq-true (is_alnum c) (rest_is_id 63 s) h in
    let no_space = id_char-not_space c (ground (arith, ok_char)) in
    rw no_space (rstrip-keep c s no_space ∙ ap (λ x. String.◌∷◌ c x) (rstrip_id 63 s more))

id-nonempty : (s : String) → is_task_id s ≡ true → (s == "") ≡ false
unfolding is_task_id
id-nonempty s h = elim (Bool-cases (s == "")) [
  | inl e ↦
      let same : s ≡ "" = (eq_iff s "").0 e in
      let bad : ⊥ = cc (subst (λ x. is_task_id x ≡ true) same h) in absurd bad
  | inr e ↦ e
]

-- A task as the first loop leaves it, where its id has the form of a given one.
pub record IsNormal (t : Task) : Type 0 where
  pub id_form : is_task_id t.id ≡ true
  pub texts : names_of (map name t.needs) ≡ some t.needs
  pub distinct : dedup t.needs ≡ t.needs

id_of-stored :
    (index : ℕ) (used : List String) (t : Task)
    → IsNormal t
    → contains t.id used ≡ false
    → id_of index used (stored t) ≡ ok t.id
unfolding id_of
id_of-stored index used t i n =
    simp (id_of, strip_id t.id i.id_form, id-nonempty t.id i.id_form, i.id_form, n) refl

needs_for-stored :
    (native : Bool) (previous : Option String) (id : String) (t : Task)
    → IsNormal t
    → needs_for native previous id (needs (map name t.needs)) ≡ ok t.needs
unfolding needs_for
needs_for-stored native previous id t i = simp (needs_for, i.texts) (ap (λ ds. ok ds) i.distinct)

still_unused :
    (id : String) (used : List String) (tasks : List Task)
    → contains id (ids tasks) ≡ false
    → All (λ t. contains t.id used ≡ false) tasks
    → All (λ t. contains t.id (id ∷ used) ≡ false) tasks
still_unused id used [] n u = tt
still_unused id used (t ∷ tasks) n (u, us) = (
  ground (arith, u, n, eq_iff t.id id, eq_iff id t.id),
  still_unused id used tasks (ground (arith, n)) us,
)

pub normalize_items-stored :
    (native : Bool) (index : ℕ) (previous : Option String) (used : List String) (tasks : List Task)
    → All IsNormal tasks
    → IsNodup (ids tasks)
    → All (λ t. contains t.id used ≡ false) tasks
    → normalize_items native index previous used (map object (map stored tasks)) ≡ ok tasks
unfolding normalize_items
normalize_items-stored native index previous used [] i nd u = refl
normalize_items-stored native index previous used (t ∷ tasks) (i, is) (n, nd) (u, us) =
    rw
      (
        id_of-stored index used t i u,
        needs_for-stored native previous t.id t i,
        normalize_items-stored native (index + 1) (some t.id) (t.id ∷ used) tasks is nd
            (still_unused t.id used tasks n us),
      )
      refl
