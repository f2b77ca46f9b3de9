-- ===== src/Workflow/Gate/Passes.antt =====
-- workflow.py: `evaluate_gate` where the gate passes.
use mathlib.Core.Path.{subst}
use Prim.Native.String.{◌++◌}
use bastet_agent_os.Prelude.Text.{codes}
use bastet_agent_os.Workflow.Failure.{
  FailureKind, business, llm_credentials, browser_playwright, skill, classify_failure, last_line,
}
use bastet_agent_os.Prelude.{
  ℕ, String, ◌≡◌, refl, sym, ap, ◌∙◌, ◌⊎◌, eq_iff, ◌==◌, Bool, true, false, Option, none, some,
  List, [], ◌∷◌, arith, Bool-cases, Option-cases, inl, inr, if◌then◌else◌,
}
use bastet_agent_os.Prelude.Int.{ℤ, pos, negsuc}
use bastet_agent_os.Workflow.Json.{Float, Scalar, lookup}
use bastet_agent_os.Workflow.Gate.{
  GateOutcome, outcome, Proc, not_run, exited, is_code, has_key, holds, value_of, compare_with,
  comparable, operator_of, is_approval, is_iterable, review_outcome, tests_outcome, metric_outcome,
  evaluate_gate, judge_failure, judge_tests, refused, Loaded, Reading, malformed, uncaught, number,
}

-- The evidence behind a gate that passes.
pub data Evidence (loads : List ℕ → Loaded) (config : List (String × Scalar)) (proc : Proc)
    (given : Option (List (String × Scalar))) : String → Type 0 where
  no_gate : Evidence loads config proc given "auto"
  tests_ran :
      (out err_out : String)
      → proc ≡ exited (pos 0) out err_out
      → Evidence loads config proc given "tests-pass"
  metric_met :
      (out err_out op : String) (value threshold : Float)
      → proc ≡ exited (pos 0) out err_out
      → value_of (loads (last_line (codes out))) ≡ number value
      → operator_of (lookup "operator" config) ≡ some op
      → comparable (lookup "threshold" config) ≡ some threshold
      → holds op value threshold ≡ some true
      → Evidence loads config proc given "metric-threshold"
  approved :
      (fields : List (String × Scalar))
      → given ≡ some fields
      → is_approval (lookup "verdict" fields) ≡ true
      → Evidence loads config proc given "agent-review"

pub Reading-cases :
    (x : Reading) → (x ≡ uncaught) ⊎ ((x ≡ malformed) ⊎ ((v : Float) × (x ≡ number v)))
Reading-cases uncaught = inl refl
Reading-cases malformed = inr (inl refl)
Reading-cases (number v) = inr (inr (v, refl))

is_code-zero : (code : ℤ) → is_code code 0 ≡ true → code ≡ pos 0
is_code-zero (pos n) h = ap pos (ground (arith, h))
is_code-zero (negsuc n) h = let bad : ⊥ = cc in absurd bad

abbrev verdict_of : Bool → String
verdict_of b = if b then "passed" else "failed"

verdict_of-true : (b : Bool) → verdict_of b ≡ "passed" → b ≡ true
verdict_of-true true h = refl
verdict_of-true false h = let bad : ⊥ = ground (arith, h, eq_iff "failed" "passed") in absurd bad

verdict_same : {a b : GateOutcome} → some a ≡ some b → b.verdict ≡ "passed" → a.verdict ≡ "passed"
verdict_same {a} {b} h p = let e : a ≡ b = cc (h) in ap (λ (o : GateOutcome). o.verdict) e ∙ p

compare_with-passed :
    (config : List (String × Scalar)) (value : Float) (o : GateOutcome)
    → compare_with config value ≡ some o
    → o.verdict ≡ "passed"
    → (op : String) × (threshold : Float) × (operator_of (lookup "operator" config) ≡ some op)
      × (comparable (lookup "threshold" config) ≡ some threshold)
      × (holds op value threshold ≡ some true)
unfolding compare_with
compare_with-passed config value o h p =
    elim (Option-cases (operator_of (lookup "operator" config))) [
      | inl e ↦ let bad : ⊥ = cc (rw (compare_with, e) at h) in absurd bad
      | inr (op, e) ↦ elim (Option-cases (comparable (lookup "threshold" config))) [
        | inl f ↦ let bad : ⊥ = cc (rw (compare_with, e, f) at h) in absurd bad
        | inr (threshold, f) ↦ elim (Option-cases (holds op value threshold)) [
          | inl g ↦ let bad : ⊥ = cc (rw (compare_with, e, f, g) at h) in absurd bad
          | inr (b, g) ↦
              let same : some (outcome (verdict_of b) false business) ≡ some o =
                rw (compare_with, e, f, g) at h in
              (op, threshold, e, f, g ∙ ap some (verdict_of-true b (verdict_same same p)))
        ]
      ]
    ]

-- An outcome that is given as it stands, and does not pass.
failed_not :
    {C : Type 0} {c : Bool} {k : FailureKind} {o : GateOutcome}
    → some (outcome "failed" c k) ≡ some o
    → o.verdict ≡ "passed"
    → C
failed_not h p =
    let q = verdict_same h p in
    let bad : ⊥ = ground (arith, q, eq_iff "failed" "passed") in absurd bad

review-passed :
    (given : Option (List (String × Scalar))) (o : GateOutcome)
    → review_outcome given ≡ some o
    → o.verdict ≡ "passed"
    → (fields : List (String × Scalar)) × (given ≡ some fields)
      × (is_approval (lookup "verdict" fields) ≡ true)
unfolding review_outcome
review-passed none o h p = failed_not h p
review-passed (some []) o h p = failed_not h p
review-passed (some (f ∷ fields)) o h p =
    elim (Bool-cases (is_iterable (lookup "reasons" (f ∷ fields)))) [
      | inr e ↦ let bad : ⊥ = cc (rw (review_outcome, e) at h) in absurd bad
      | inl e ↦
          let ok_now = is_approval (lookup "verdict" (f ∷ fields)) in
          let same : some (outcome (verdict_of ok_now) false business) ≡ some o =
            rw (review_outcome, e) at h in
          (f ∷ fields, refl, verdict_of-true ok_now (verdict_same same p))
    ]

judge_failure-verdict :
    (code : ℤ) (output : List ℕ) (kind : FailureKind)
    → (judge_failure code output kind).verdict ≡ "failed"
judge_failure-verdict code output business = refl
judge_failure-verdict code output llm_credentials = refl
judge_failure-verdict code output browser_playwright = refl
judge_failure-verdict code output (skill name) = refl

judge_tests-passed :
    (code : ℤ) (output : List ℕ) (kind : FailureKind)
    → (judge_tests code output kind).verdict ≡ "passed"
    → is_code code 0 ≡ true
judge_tests-passed code output kind h = elim (Bool-cases (is_code code 0)) [
  | inl e ↦ e
  | inr e ↦
      let q : "failed" ≡ "passed" = sym (judge_failure-verdict code output kind) ∙ rw (e) at h in
      let bad : ⊥ = ground (arith, q, eq_iff "failed" "passed") in absurd bad
]

tests-passed :
    (proc : Proc) (o : GateOutcome)
    → tests_outcome proc ≡ some o
    → o.verdict ≡ "passed"
    → (out : String) × (err_out : String) × (proc ≡ exited (pos 0) out err_out)
unfolding tests_outcome
tests-passed not_run o h p = failed_not h p
tests-passed refused o h p = let bad : ⊥ = cc in absurd bad
tests-passed (exited code out err_out) o h p =
    elim (Option-cases (classify_failure (codes (out ++ err_out)))) [
      | inl c ↦ let bad : ⊥ = cc (rw (tests_outcome, c) at h) in absurd bad
      | inr (kind, c) ↦
          let e =
            judge_tests-passed code (codes (out ++ err_out)) kind
              (verdict_same (rw (tests_outcome, c) at h) p) in
          (out, err_out, ap (λ c. exited c out err_out) (is_code-zero code e))
    ]

module _ (loads : List ℕ → Loaded) where
  metric-passed :
      (config : List (String × Scalar)) (proc : Proc) (given : Option (List (String × Scalar)))
      (o : GateOutcome)
      → metric_outcome loads config proc ≡ some o
      → o.verdict ≡ "passed"
      → Evidence loads config proc given "metric-threshold"
  unfolding metric_outcome
  metric-passed config not_run given o h p = failed_not h p
  metric-passed config refused given o h p = let bad : ⊥ = cc in absurd bad
  metric-passed config (exited code out err_out) given o h p = elim (Bool-cases (is_code code 0)) [
    | inr e ↦ failed_not (rw (metric_outcome, e) at h) p
    | inl e ↦ elim (Reading-cases (value_of (loads (last_line (codes out))))) [
      | inl v ↦ let bad : ⊥ = cc (rw (metric_outcome, e, v) at h) in absurd bad
      | inr (inl v) ↦ failed_not (rw (metric_outcome, e, v) at h) p
      | inr (inr (value, v)) ↦
          let (op, threshold, f, g, k) =
            compare_with-passed config value o (rw (metric_outcome, e, v) at h) p in
          metric_met out err_out op value threshold
            (ap (λ c. exited c out err_out) (is_code-zero code e)) v f g k
    ]
  ]

  -- A gate passes only on its evidence: the gate is `auto`; or its command ran and ended with code 0;
  -- or it did, and in the last line of its output that is not blank there is a finite number that
  -- compares with the threshold as the operator says; or the reviewer left a verdict that says `approve`.
  pub evaluate_gate-Evidence :
      (gate : String) (config : List (String × Scalar)) (proc : Proc)
      (given : Option (List (String × Scalar))) (o : GateOutcome)
      → evaluate_gate loads gate config proc given ≡ some o
      → o.verdict ≡ "passed"
      → Evidence loads config proc given gate
  unfolding evaluate_gate
  evaluate_gate-Evidence gate config proc given o h p =
      let back = λ (w : String) (e : (gate == w) ≡ true) (x : Evidence loads config proc given w).
        subst (Evidence loads config proc given) (sym ((eq_iff gate w).0 e)) x in
      elim (Bool-cases (gate == "auto")) [
        | inl a ↦ back "auto" a no_gate
        | inr a ↦ elim (Bool-cases (gate == "tests-pass")) [
          | inl t ↦ elim (Bool-cases (has_key "command" config)) [
            | inr k ↦ let bad : ⊥ = cc (rw (evaluate_gate, a, t, k) at h) in absurd bad
            | inl k ↦
                let (out, err_out, r) = tests-passed proc o (rw (evaluate_gate, a, t, k) at h) p in
                back "tests-pass" t (tests_ran out err_out r)
          ]
          | inr t ↦ elim (Bool-cases (gate == "metric-threshold")) [
            | inl m ↦ elim (Bool-cases (has_key "command" config)) [
              | inr k ↦ let bad : ⊥ = cc (rw (evaluate_gate, a, t, m, k) at h) in absurd bad
              | inl k ↦
                  back "metric-threshold" m
                    (metric-passed config proc given o (rw (evaluate_gate, a, t, m, k) at h) p)
            ]
            | inr m ↦ elim (Bool-cases (gate == "agent-review")) [
              | inl r ↦
                  let (fields, q, y) =
                    review-passed given o (rw (evaluate_gate, a, t, m, r) at h) p in
                  back "agent-review" r (approved fields q y)
              | inr r ↦ elim (Bool-cases (gate == "human-approve")) [
                | inl w ↦
                    let q = verdict_same (rw (evaluate_gate, a, t, m, r, w) at h) p in
                    let bad : ⊥ = ground (arith, q, eq_iff "pending" "passed") in absurd bad
                | inr w ↦ failed_not (rw (evaluate_gate, a, t, m, r, w) at h) p
              ]
            ]
          ]
        ]
      ]
