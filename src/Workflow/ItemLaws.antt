-- ===== src/Workflow/ItemLaws.antt =====
-- workflow.py: one item of the template that `parse_stages` accepts.
use bastet_agent_os.Prelude.{
  ℕ, ◌≤◌, String, ◌≡◌, Bool, true, false, Option, none, some, List, ok, Ensures, Ensures-bind,
  Ensures-bind_any, Ensures-after, contains, ◌==◌, arith,
}
use bastet_agent_os.Prelude.Int.{ℤ, pos, negsuc}
use bastet_agent_os.Workflow.Json.{get}
use bastet_agent_os.Workflow.Stage.{
  RawStage, StageDef, gate_types, on_fail_policies, ParseError, unknown_gate, bad_on_fail,
  bad_workspace, workspaces, bad_requires, bad_ids, not_an_integer,
}
use bastet_agent_os.Workflow.Item.{
  one_of, exchanges, parse_name, parse_item, parse_ids, parse_needs, to_int, parse_delivery_modes,
}

parse_name-fresh :
    (i : ℕ) (seen : List String) (o : Option String) (name : String)
    → parse_name i seen o ≡ ok name
    → (contains name seen ≡ false) × ((name == "") ≡ false)
unfolding parse_name
parse_name-fresh i seen none name h = ground arith
parse_name-fresh i seen (some x) name h = ground arith

one_of-known :
    (e : ParseError) (known : List String) (o : Option String) (word : String)
    → one_of e known o ≡ ok word
    → contains word known ≡ true
unfolding one_of
one_of-known e known none word h = ground arith
one_of-known e known (some x) word h = ground arith

exchanges-le : (name : String) (n : ℤ) (limit : ℕ) → exchanges name n ≡ ok limit → limit ≤ 5
unfolding exchanges
exchanges-le name (pos n) limit h = ground arith
exchanges-le name (negsuc n) limit h = ground arith

-- The single stage is checked against the words that the engine knows.
pub record IsChecked (s : StageDef) : Type 0 where
  pub named : (s.name == "") ≡ false
  pub gate_known : contains s.gate gate_types ≡ true
  pub on_fail_known : contains s.on_fail on_fail_policies ≡ true
  pub workspace_known : contains s.workspace workspaces ≡ true
  pub limited : s.max_challenge_exchanges ≤ 5

abbrev Accepted : List String → StageDef → Type 0
Accepted seen s = (contains s.name seen ≡ false) × IsChecked s

parse_item-Ensures :
    (graph_native : Bool) (i : ℕ) (previous : Option String) (seen : List String) (item : RawStage)
    → Ensures (Accepted seen) (parse_item graph_native i previous seen item)
unfolding parse_item
parse_item-Ensures gn i previous seen item =
    Ensures-bind _ _ (record { at = parse_name-fresh i seen (get item.name) })
      λ name fresh.
        Ensures-bind _ _ (record { at = one_of-known (unknown_gate name) gate_types _ })
          λ gate known. Ensures-after _ _ (
            Ensures-bind _ _ (record { at = one_of-known (bad_on_fail name) on_fail_policies _ })
              λ on_fail kept.
                Ensures-bind_any (parse_ids (bad_requires name) item.requires) _ λ requires.
                  Ensures-bind_any (parse_needs name gn previous item.needs) _ λ needs.
                    Ensures-bind _ _
                      (record { at = one_of-known (bad_workspace name) workspaces _ })
                      λ workspace shared.
                        Ensures-bind_any (to_int (not_an_integer name "max_challenge_exchanges") _)
                          _
                          λ asked.
                            Ensures-bind _ _ (record { at = exchanges-le name asked })
                              λ limit le.
                                Ensures-bind_any (parse_ids (bad_ids name "produces") item.produces)
                                  _
                                  λ produces.
                                    Ensures-bind_any
                                      (parse_ids (bad_ids name "consumes") item.consumes) _
                                      λ consumes.
                                        Ensures-bind_any
                                          (parse_ids (bad_ids name "evidence") item.evidence) _
                                          λ evidence.
                                            Ensures-bind_any
                                              (parse_delivery_modes name item.delivery_modes) _
                                              λ modes.
                                                Ensures-bind_any
                                                  (to_int (not_an_integer name "max_retries") _) _
                                                  λ max_retries.
                                                    Ensures-bind_any
                                                      (to_int (not_an_integer name "max_cycles") _)
                                                      _
                                                      λ max_cycles. record {
                                                        at = λ s e.
                                                            ground
                                                            (arith, fresh, known, kept, shared, le);
                                                      })

-- The stage that an item becomes has passed every check of a single stage, and its name is new.
pub parse_item-Accepted :
    (graph_native : Bool) (i : ℕ) (previous : Option String) (seen : List String) (item : RawStage)
    (s : StageDef)
    → parse_item graph_native i previous seen item ≡ ok s
    → (contains s.name seen ≡ false) × IsChecked s
parse_item-Accepted gn i previous seen item s h =
    (parse_item-Ensures gn i previous seen item).at s h
