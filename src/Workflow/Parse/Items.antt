-- ===== src/Workflow/Parse/Items.antt =====
-- workflow.py: the first loop of `parse_stages`.
use mathlib.Core.Path.{subst}
use bastet_agent_os.Prelude.{
  ℕ, suc, String, ◌≡◌, true, false, Bool, List, [], ◌∷◌, Ensures, Ensures-bind, contains,
  contains-head, IsNodup, Bool-cases, inl, inr, All, eq_iff, ◌==◌, arith,
}
use bastet_agent_os.Workflow.Stage.{RawStage, StageDef, names}
use bastet_agent_os.Workflow.ItemLaws.{IsChecked, parse_item-Accepted}
use bastet_agent_os.Workflow.Parse.{parse_items, last_name}

-- No stage has one of the names.
abbrev pub Fresh : List String → List StageDef → Type 0
Fresh seen stages = (a : String) → contains a (names stages) ≡ true → contains a seen ≡ false

pub record Parsed (seen : List String) (stages : List StageDef) : Type 0 where
  pub fresh : Fresh seen stages
  pub distinct : IsNodup (names stages)
  pub checked : All IsChecked stages

Fresh-cons :
    (s : StageDef) (seen : List String) (stages : List StageDef)
    → contains s.name seen ≡ false
    → Fresh (s.name ∷ seen) stages
    → Fresh seen (s ∷ stages)
Fresh-cons s seen stages new f a h = elim (Bool-cases (a == s.name)) [
  | inl e ↦ ground (arith, eq_iff a s.name, new)
  | inr e ↦ ground (arith, f a, h)
]

not_later :
    (s : StageDef) (seen : List String) (stages : List StageDef)
    → Fresh (s.name ∷ seen) stages
    → contains s.name (names stages) ≡ false
not_later s seen stages f = elim (Bool-cases (contains s.name (names stages))) [
  | inl e ↦ ground (arith, f s.name e, contains-head s.name seen)
  | inr e ↦ e
]

-- Whatever the first loop returns has distinct names, and each of its stages is checked.
pub parse_items-Ensures :
    (graph_native : Bool) (i : ℕ) (seen : List String) (items : List RawStage)
    → Ensures (Parsed seen) (parse_items graph_native i seen items)
unfolding parse_items
parse_items-Ensures gn i seen [] = record {
  at = λ stages h. let e : [] ≡ stages = cc in subst (Parsed seen) e Parsed-nil;
}
  where
    Parsed-nil : Parsed seen []
    Parsed-nil = record {
      fresh = λ a h. let bad : ⊥ = ground (arith, h) in absurd bad;
      distinct = tt;
      checked = tt;
    }
parse_items-Ensures gn i seen (item ∷ items) =
    Ensures-bind _ _ (record { at = parse_item-Accepted gn i (last_name seen) seen item })
      λ s one. Ensures-bind _ _ (parse_items-Ensures gn (suc i) (s.name ∷ seen) items) λ rest more.
        record {
          at = λ stages e.
              let done : s ∷ rest ≡ stages = cc in
              subst (Parsed seen) done (record {
                fresh = Fresh-cons s seen rest one.0 more.fresh;
                distinct = (not_later s seen rest more.fresh, more.distinct);
                checked = (one.1, more.checked);
              });
        }
