-- ===== src/Workflow/Gate/Runs.antt =====
-- workflow.py: `evaluate_gate` on a `gate_config` that `parse_stages` accepted.
use mathlib.Core.Path.{subst}
use Prim.Native.String.{◌++◌}
use bastet_agent_os.Prelude.Int.{ℤ}
use bastet_agent_os.Prelude.Text.{codes}
use bastet_agent_os.Workflow.Failure.{FailureKind, business, classify_failure, last_line}
use bastet_agent_os.Prelude.{
  ℕ, ◌≢◌, String, ◌≡◌, refl, eq_iff, ◌==◌, Bool, true, false, not, Option, none, some, List, [],
  ◌∷◌, contains, arith, Bool-cases, Option-cases, ok, inl, inr, raise_if, raise_if-eq-ok, >>-eq-ok,
  ◌>>◌, if◌then◌else◌,
}
use bastet_agent_os.Workflow.Json.{
  Float, Scalar, null, bool, int, float, text, nested, lookup, as_number, truthy,
}
use bastet_agent_os.Workflow.Stage.{metric_operators, no_command, bad_operator}
use bastet_agent_os.Workflow.Item.{check_gate_config, check_threshold, is_operator}
use bastet_agent_os.Workflow.Gate.{
  GateOutcome, outcome, Proc, not_run, exited, is_code, has_key, holds, value_of, compare_with,
  comparable, operator_of, is_iterable, is_approval, review_outcome, tests_outcome, metric_outcome,
  evaluate_gate, judge_tests, Loaded, uncaught,
}
use bastet_agent_os.Workflow.Gate.Passes.{Reading-cases}

has_key-lookup :
    (key : String) (config : List (String × Scalar))
    → truthy (lookup key config) ≡ true
    → has_key key config ≡ true
unfolding has_key lookup truthy
has_key-lookup key [] h = h
has_key-lookup key ((k, v) ∷ config) h = elim (Bool-cases (k == key)) [
  | inl e ↦ ground (arith, e)
  | inr e ↦ ground (arith, e, has_key-lookup key config (rw (e) at h))
]

operator_of-known :
    (s : Scalar)
    → is_operator s ≡ true
    → (op : String) × (operator_of s ≡ some op) × (contains op metric_operators ≡ true)
unfolding is_operator operator_of
operator_of-known (text op) h = (op, refl, h)
operator_of-known null h = let bad : ⊥ = cc in absurd bad
operator_of-known (bool b) h = let bad : ⊥ = cc in absurd bad
operator_of-known (int n) h = let bad : ⊥ = cc in absurd bad
operator_of-known (float x) h = let bad : ⊥ = cc in absurd bad
operator_of-known (nested b) h = let bad : ⊥ = cc in absurd bad

holds-known :
    (op : String) (a b : Float)
    → contains op metric_operators ≡ true
    → (r : Bool) × (holds op a b ≡ some r)
unfolding holds
holds-known op a b h = elim (Option-cases (holds op a b)) [
  | inr (r, e) ↦ (r, e)
  | inl e ↦ let bad : ⊥ = ground (arith, h, e) in absurd bad
]

threshold-known :
    (name : String) (x : Option Float) → check_threshold name x ≡ ok tt → (t : Float) × (x ≡ some t)
unfolding check_threshold
threshold-known name none h = let bad : ⊥ = cc in absurd bad
threshold-known name (some t) h = (t, refl)

-- What the parser's check of a metric gate says of its configuration.
metric-config :
    (name : String) (config : List (String × Scalar))
    → check_gate_config name "metric-threshold" config ≡ ok tt
    → (has_key "command" config ≡ true)
      × (op : String) × (threshold : Float) × (operator_of (lookup "operator" config) ≡ some op)
      × (contains op metric_operators ≡ true)
      × (as_number (lookup "threshold" config) ≡ some threshold)
unfolding check_gate_config
metric-config name config h =
    let known = is_operator (lookup "operator" config) in
    let limit = as_number (lookup "threshold" config) in
    let (c, rest) =
      >>-eq-ok (raise_if (not (truthy (lookup "command" config))) (no_command name))
        (raise_if (not known) (bad_operator name) >> check_threshold name limit) h in
    let (o, last) =
      >>-eq-ok (raise_if (not known) (bad_operator name)) (check_threshold name limit) rest in
    let quiet = raise_if-eq-ok (not (truthy (lookup "command" config))) (no_command name) c.1 in
    let sure = raise_if-eq-ok (not known) (bad_operator name) o.1 in
    let (op, e, k) = operator_of-known (lookup "operator" config) (ground (arith, sure)) in
    let (threshold, t) = threshold-known name limit last in
    (has_key-lookup "command" config (ground (arith, quiet)), op, threshold, e, k, t)

tests-config :
    (name : String) (config : List (String × Scalar))
    → check_gate_config name "tests-pass" config ≡ ok tt
    → has_key "command" config ≡ true
unfolding check_gate_config
tests-config name config h =
    let quiet = raise_if-eq-ok (not (truthy (lookup "command" config))) (no_command name) h in
    has_key-lookup "command" config (ground (arith, quiet))

comparable-as_number : (s : Scalar) (x : Float) → as_number s ≡ some x → comparable s ≡ some x
unfolding comparable as_number
comparable-as_number (int n) x h = h
comparable-as_number (float y) x h = h
comparable-as_number null x h = let bad : ⊥ = cc in absurd bad
comparable-as_number (bool b) x h = let bad : ⊥ = cc in absurd bad
comparable-as_number (text t) x h = let bad : ⊥ = cc in absurd bad
comparable-as_number (nested b) x h = let bad : ⊥ = cc in absurd bad

compare_with-runs :
    (config : List (String × Scalar)) (value threshold : Float) (op : String)
    → operator_of (lookup "operator" config) ≡ some op
    → contains op metric_operators ≡ true
    → as_number (lookup "threshold" config) ≡ some threshold
    → (o : GateOutcome) × (compare_with config value ≡ some o)
unfolding compare_with
compare_with-runs config value threshold op e k t =
    let (b, h) = holds-known op value threshold k in
    (
      outcome (if b then "passed" else "failed") false business,
      rw (compare_with, e, comparable-as_number (lookup "threshold" config) threshold t, h) refl,
    )

-- The reasons of a verdict, if there is one, are no number and not `true`.
abbrev pub HasReasons : Option (List (String × Scalar)) → Type 0
HasReasons none = Unit
HasReasons (some fields) = is_iterable (lookup "reasons" fields) ≡ true

review-runs :
    (given : Option (List (String × Scalar)))
    → HasReasons given
    → (o : GateOutcome) × (review_outcome given ≡ some o)
unfolding review_outcome
review-runs none h = (outcome "failed" false business, refl)
review-runs (some []) h = (outcome "failed" false business, refl)
review-runs (some (f ∷ fields)) h = (
  outcome (if is_approval (lookup "verdict" (f ∷ fields)) then "passed" else "failed") false
      business,
  rw (review_outcome, h) refl,
)

-- The command of a test gate could be run, and the classification of its output does not raise.
pub data IsClassified : Proc → Type 0 where
  no_output : IsClassified not_run
  classified :
      (code : ℤ) (out err_out : String) (kind : FailureKind)
      → classify_failure (codes (out ++ err_out)) ≡ some kind
      → IsClassified (exited code out err_out)

tests-runs : (proc : Proc) → IsClassified proc → (o : GateOutcome) × (tests_outcome proc ≡ some o)
unfolding tests_outcome
tests-runs _ no_output = (outcome "failed" true business, refl)
tests-runs _ (classified code out err_out kind h) =
    (judge_tests code (codes (out ++ err_out)) kind, rw (tests_outcome, h) refl)

-- The command of a metric gate could be run, and the checks of its receipt raise nothing that the source
-- does not catch.
pub data IsReadable (loads : List ℕ → Loaded) : Proc → Type 0 where
  no_receipt : IsReadable loads not_run
  readable :
      (code : ℤ) (out err_out : String)
      → value_of (loads (last_line (codes out))) ≢ uncaught
      → IsReadable loads (exited code out err_out)

module _ (loads : List ℕ → Loaded) where
  metric-runs :
      (name : String) (config : List (String × Scalar)) (proc : Proc)
      → check_gate_config name "metric-threshold" config ≡ ok tt
      → IsReadable loads proc
      → (o : GateOutcome) × (metric_outcome loads config proc ≡ some o)
  unfolding metric_outcome
  metric-runs name config _ h no_receipt = (outcome "failed" true business, refl)
  metric-runs name config _ h (readable code out err_out r) = elim (Bool-cases (is_code code 0)) [
    | inr e ↦ (outcome "failed" false business, rw (metric_outcome, e) refl)
    | inl e ↦ elim (Reading-cases (value_of (loads (last_line (codes out))))) [
      | inl v ↦ absurd (r v)
      | inr (inl v) ↦ (outcome "failed" true business, rw (metric_outcome, e, v) refl)
      | inr (inr (value, v)) ↦
          let (_, op, threshold, f, k, t) = metric-config name config h in
          let (o, q) = compare_with-runs config value threshold op f k t in
          (o, rw (metric_outcome, e, v) q)
    ]
  ]

  -- The gate of a stage whose `gate_config` the parser accepted has an outcome, if: the command of a test
  -- gate could be run, with an output whose failure can be classified; the command of a metric gate could
  -- be run, with a receipt whose reading raises nothing uncaught; and the reasons of a verdict that was
  -- left are no number and not `true`.
  pub evaluate_gate-runs :
      (name gate : String) (config : List (String × Scalar)) (proc : Proc)
      (given : Option (List (String × Scalar)))
      → check_gate_config name gate config ≡ ok tt
      → (gate ≡ "tests-pass" → IsClassified proc)
      → (gate ≡ "metric-threshold" → IsReadable loads proc)
      → HasReasons given
      → (o : GateOutcome) × (evaluate_gate loads gate config proc given ≡ some o)
  unfolding evaluate_gate
  evaluate_gate-runs name gate config proc given h k l r =
      let at = λ (w : String) (e : (gate == w) ≡ true).
        subst (λ g. check_gate_config name g config ≡ ok tt) ((eq_iff gate w).0 e) h in
      elim (Bool-cases (gate == "auto")) [
        | inl a ↦ (outcome "passed" false business, rw (evaluate_gate, a) refl)
        | inr a ↦ elim (Bool-cases (gate == "tests-pass")) [
          | inl t ↦
              let (o, e) = tests-runs proc (k ((eq_iff gate "tests-pass").0 t)) in
              (o, rw (evaluate_gate, a, t, tests-config name config (at "tests-pass" t)) e)
          | inr t ↦ elim (Bool-cases (gate == "metric-threshold")) [
            | inl m ↦
                let c = at "metric-threshold" m in
                let (o, e) =
                  metric-runs name config proc c (l ((eq_iff gate "metric-threshold").0 m)) in
                (o, rw (evaluate_gate, a, t, m, (metric-config name config c).0) e)
            | inr m ↦ elim (Bool-cases (gate == "agent-review")) [
              | inl v ↦ let (o, e) = review-runs given r in (o, rw (evaluate_gate, a, t, m, v) e)
              | inr v ↦ elim (Bool-cases (gate == "human-approve")) [
                | inl w ↦ (outcome "pending" false business, rw (evaluate_gate, a, t, m, v, w) refl)
                | inr w ↦ (outcome "failed" false business, rw (evaluate_gate, a, t, m, v, w) refl)
              ]
            ]
          ]
        ]
      ]
