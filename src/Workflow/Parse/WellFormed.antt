-- ===== src/Workflow/Parse/WellFormed.antt =====
-- workflow.py: `parse_stages` where it accepts the template.
use mathlib.Core.Path.{subst}
use mathlib.Core.List.{Memᴰ}
use bastet_agent_os.Prelude.{
  String, ◌≡◌, ◌≢◌, sym, ap, refl, eq_refl, ◌∙◌, true, List, [], ◌∷◌, ok, >>-eq-ok, Ensures,
  Ensures-bind, for_each, for_each-All, contains, Subset, IsNodup, All, arith,
}
use bastet_agent_os.Graph.{DependsOn}
use bastet_agent_os.Graph.Acyclic.{IsOrdered, IsOrdered-acyclic}
use bastet_agent_os.Graph.Fuel.{IsClosed}
use bastet_agent_os.Workflow.Stage.{RawStage, StageDef, names, needs_of}
use bastet_agent_os.Workflow.ItemLaws.{IsChecked}
use bastet_agent_os.Workflow.Parse.{
  check_references, check_sink, check_graph, check_artifacts, check_parallel, check_pair,
  check_stages, parse_stages,
}
use bastet_agent_os.Workflow.Parse.Items.{parse_items-Ensures}
use bastet_agent_os.Workflow.Parse.Checks.{
  Refers, Supplied, Apart, before, after, readers, isolated, check_references-Refers,
  needs_of-IsClosed, check_graph-acyclic, check_artifacts-Supplied, check_pair-Apart, IsSinkOrPlain,
  check_sink-IsSinkOrPlain,
}

pub record IsWellFormed (stages : List StageDef) : Type 0 where
  pub distinct : IsNodup (names stages)
  pub checked : All IsChecked stages
  pub refers : All (Refers (names stages)) stages
  pub closed : IsClosed (needs_of stages) (names stages)
  pub order : List String
  pub ordered : IsOrdered (needs_of stages) order
  pub covered : Subset (names stages) order
  pub sinks : All (IsSinkOrPlain stages) stages
  pub supplied : All (Supplied stages) stages
  pub apart : (s t : StageDef) → Memᴰ s stages → Memᴰ t stages → s.name ≢ t.name → Apart stages s t

pub All-mem {ℓ} : {A : Type ℓ} (P : A → Type 0) {x : A} (xs : List A) → All P xs → Memᴰ x xs → P x
All-mem P [] h m = elim m [ ]
All-mem P (y ∷ xs) h (Memᴰ.head e) = subst P (sym e) h.0
All-mem P (y ∷ xs) h (Memᴰ.tail m) = All-mem P xs h.1 m

pub All-map {ℓ} :
    {A : Type ℓ} (P Q : A → Type 0) (xs : List A)
    → ((x : A) → Memᴰ x xs → P x → Q x)
    → All P xs
    → All Q xs
All-map P Q [] f h = tt
All-map P Q (x ∷ xs) f (p, h) =
    (f x (Memᴰ.head refl) p, All-map P Q xs (λ y m. f y (Memᴰ.tail m)) h)

pub contains-names :
    (s : StageDef) (stages : List StageDef) → Memᴰ s stages → contains s.name (names stages) ≡ true
contains-names s [] m = elim m [ ]
contains-names s (t ∷ stages) (Memᴰ.head e) =
    ground (arith, ap (λ (x : StageDef). x.name) e, eq_refl t.name)
contains-names s (t ∷ stages) (Memᴰ.tail m) = ground (arith, contains-names s stages m)

Apart-sym : {stages : List StageDef} {s t : StageDef} → Apart stages s t → Apart stages t s
Apart-sym (before d) = after d
Apart-sym (after d) = before d
Apart-sym (readers p q) = readers q p
Apart-sym (isolated p q) = isolated q p

abbrev Known : List StageDef → List StageDef → Type 0
Known stages rest = (s : StageDef) → Memᴰ s rest → contains s.name (names stages) ≡ true

first_apart :
    (stages : List StageDef) (x : StageDef) (rest : List StageDef)
    → IsClosed (needs_of stages) (names stages)
    → Known stages (x ∷ rest)
    → check_parallel stages (x ∷ rest) ≡ ok tt
    → (t : StageDef) → Memᴰ t rest
    → Apart stages x t
unfolding check_parallel
first_apart stages x rest c k h t m =
    let ((_, e), _) =
      >>-eq-ok (for_each (check_pair stages x) rest) (check_parallel stages rest) h in
    let pairs = for_each-All (check_pair stages x) rest e in
    check_pair-Apart stages x t c (k x (Memᴰ.head refl)) (k t (Memᴰ.tail m))
      (All-mem (λ y. check_pair stages x y ≡ ok tt) rest pairs m)

check_parallel-Apart :
    (stages rest : List StageDef)
    → IsClosed (needs_of stages) (names stages)
    → Known stages rest
    → check_parallel stages rest ≡ ok tt
    → (s t : StageDef) → Memᴰ s rest
    → Memᴰ t rest
    → s.name ≢ t.name
    → Apart stages s t
unfolding check_parallel
check_parallel-Apart stages [] c k h s t m n ne = elim m [ ]
check_parallel-Apart stages (x ∷ rest) c k h s t (Memᴰ.head p) (Memᴰ.head q) ne =
    absurd (ne (ap (λ (y : StageDef). y.name) (p ∙ sym q)))
check_parallel-Apart stages (x ∷ rest) c k h s t (Memᴰ.tail m) (Memᴰ.tail n) ne =
    check_parallel-Apart stages rest c (λ y i. k y (Memᴰ.tail i))
      (>>-eq-ok (for_each (check_pair stages x) rest) (check_parallel stages rest) h).1 s t m n ne
check_parallel-Apart stages (x ∷ rest) c k h s t (Memᴰ.head p) (Memᴰ.tail n) ne =
    subst (λ y. Apart stages y t) (sym p) (first_apart stages x rest c k h t n)
check_parallel-Apart stages (x ∷ rest) c k h s t (Memᴰ.tail m) (Memᴰ.head q) ne =
    Apart-sym (subst (λ y. Apart stages y s) (sym q) (first_apart stages x rest c k h s m))

check_stages-WellFormed :
    (stages : List StageDef)
    → IsNodup (names stages)
    → All IsChecked stages
    → check_stages stages ≡ ok tt
    → IsWellFormed stages
unfolding check_stages
check_stages-WellFormed stages distinct checked h =
    let references : for_each (check_references (names stages)) stages ≡ ok tt = ground arith in
    let sinks : for_each (check_sink stages) stages ≡ ok tt = ground arith in
    let graph : check_graph stages ≡ ok tt = ground arith in
    let artifacts : for_each (check_artifacts stages) stages ≡ ok tt = ground arith in
    let parallel : check_parallel stages stages ≡ ok tt = ground arith in
    let refers =
      All-map _ (Refers (names stages)) stages (λ s _. check_references-Refers (names stages) s)
        (for_each-All _ stages references) in
    let closed = needs_of-IsClosed (names stages) stages refers in
    let (order, ordered, covered) = check_graph-acyclic stages graph in
    record {
      distinct = distinct;
      checked = checked;
      refers = refers;
      closed = closed;
      order = order;
      ordered = ordered;
      covered = covered;
      sinks =
          All-map _ (IsSinkOrPlain stages) stages (λ s _. check_sink-IsSinkOrPlain stages s)
            (for_each-All _ stages sinks);
      supplied =
          All-map _ (Supplied stages) stages
            (λ s m. check_artifacts-Supplied stages s closed (contains-names s stages m))
            (for_each-All _ stages artifacts);
      apart = check_parallel-Apart stages stages closed (λ s m. contains-names s stages m) parallel;
    }

parse_stages-Ensures : (raw : List RawStage) → Ensures IsWellFormed (parse_stages raw)
unfolding parse_stages
parse_stages-Ensures [] = record { at = λ stages h. let bad : ⊥ = cc in absurd bad }
parse_stages-Ensures (item ∷ items) =
    Ensures-bind _ _ (parse_items-Ensures _ 0 [] (item ∷ items)) λ stages parsed. record {
      at = λ result h.
          let (c, e) = >>-eq-ok (check_stages stages) (ok stages) h in
          let same : stages ≡ result = cc in
          subst IsWellFormed same
            (check_stages-WellFormed stages parsed.distinct parsed.checked (ground (arith, c.1)));
    }

-- A template that `parse_stages` accepts is well formed: its stages have distinct names and known
-- words, their rework targets and needs are stages, the stages have an order in which every stage
-- comes after all that it needs, only sinks declare delivery modes, a consumed artifact is produced
-- by a stage that the consumer depends on, and of two stages of different names one depends on the
-- other, or both are read only, or both have an isolated workspace.
pub parse_stages-WellFormed :
    (raw : List RawStage) (stages : List StageDef)
    → parse_stages raw ≡ ok stages
    → IsWellFormed stages
parse_stages-WellFormed raw stages h = (parse_stages-Ensures raw).at stages h

-- No stage of an accepted template depends on itself, directly or through other stages.
pub parse_stages-acyclic :
    (raw : List RawStage) (stages : List StageDef) (s : StageDef)
    → parse_stages raw ≡ ok stages
    → Memᴰ s stages
    → ¬ DependsOn (needs_of stages) s.name s.name
parse_stages-acyclic raw stages s h m =
    let w = parse_stages-WellFormed raw stages h in
    IsOrdered-acyclic (needs_of stages) s.name w.order w.ordered
      (w.covered s.name (contains-names s stages m))
