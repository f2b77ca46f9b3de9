-- ===== src/Workflow/Gate/Tests.antt =====
-- A metric gate whose command printed 90 against a threshold of 80.
use bastet_agent_os.Prelude.Text.{codes, same_codes}
use bastet_agent_os.Prelude.{
  ℕ, ◌^◌, sym, ◌∙◌, eq_iff, arith, if◌then◌else◌, String, ◌≡◌, refl, false, none, some, List, [],
  ◌∷◌, ok,
}
use bastet_agent_os.Prelude.Int.{pos}
use bastet_agent_os.Workflow.Json.{
  finite, Scalar, int, text, truthy, lookup, as_number, is_finite, float_lt,
}
use bastet_agent_os.Workflow.Item.{check_gate_config, check_threshold, is_operator}
use bastet_agent_os.Workflow.Gate.{
  GateOutcome, outcome, Proc, exited, has_key, holds, value_of, compare_with, comparable,
  operator_of, metric_outcome, evaluate_gate, tests_outcome, Loaded, loaded, unreadable, number,
  number_of, is_too_large,
}
use bastet_agent_os.Workflow.Gate.Passes.{Evidence, evaluate_gate-Evidence}
use bastet_agent_os.Workflow.Gate.Runs.{evaluate_gate-runs, IsReadable, readable}
use bastet_agent_os.Workflow.Failure.{business, classify_failure, last_line}

abbrev line : List ℕ
line = codes "{\"value\": 90}"

abbrev loads : List ℕ → Loaded
loads read = if same_codes read line then loaded (("value", int (pos 90)) ∷ []) else unreadable

abbrev config : List (String × Scalar)
config = ("command", text "bench") ∷ ("operator", text ">=") ∷ ("threshold", int (pos 80)) ∷ []

abbrev printed : Proc
printed = exited (pos 0) "warming up\r\n {\"value\": 90} \n \n" ""

passes :
    evaluate_gate loads "metric-threshold" config printed none
    ≡ some (outcome "passed" false business)
unfolding evaluate_gate metric_outcome has_key value_of number_of is_too_large last_line same_codes
    compare_with comparable operator_of holds lookup as_number is_finite float_lt
passes = refl

accepted : check_gate_config "speed" "metric-threshold" config ≡ ok tt
unfolding check_gate_config check_threshold is_operator truthy lookup as_number is_finite
accepted = refl

printed-value_of :
    value_of (loads (last_line (codes "warming up\r\n {\"value\": 90} \n \n")))
    ≡ number (finite (pos 90) 0)
unfolding value_of number_of is_too_large last_line same_codes lookup
printed-value_of = refl

printed-IsReadable : IsReadable loads printed
printed-IsReadable =
    readable (pos 0) "warming up\r\n {\"value\": 90} \n \n" "" (λ h. cc (sym printed-value_of ∙ h))

not_tests : ◌≡◌ {A = String} "metric-threshold" "tests-pass" → ⊥
not_tests h = ground (arith, h, eq_iff "metric-threshold" "tests-pass")

-- A number that no float can hold makes the gate raise.
abbrev huge : List ℕ → Loaded
huge read = loaded (("value", int (pos (10 ^ 400))) ∷ [])

overflows : evaluate_gate huge "metric-threshold" config printed none ≡ none
unfolding evaluate_gate metric_outcome has_key value_of number_of is_too_large lookup
overflows = refl

-- A word is missing after `skill:`, and the classification raises.
unclassified :
    evaluate_gate loads "tests-pass" config
      (exited (pos 0) "capability_unavailable: skill:" "")
      none
    ≡ none
unfolding evaluate_gate tests_outcome classify_failure has_key
unclassified = refl

evaluate_gate-Evidence_example : Evidence loads config printed none "metric-threshold"
evaluate_gate-Evidence_example =
    evaluate_gate-Evidence loads "metric-threshold" config printed none
      (outcome "passed" false business) passes refl

evaluate_gate-runs_example :
    (o : GateOutcome) × (evaluate_gate loads "metric-threshold" config printed none ≡ some o)
evaluate_gate-runs_example =
    evaluate_gate-runs loads "speed" "metric-threshold" config printed none accepted
      (λ h. absurd (not_tests h)) (λ h. printed-IsReadable) tt
