-- ===== src/Schedules/Store/Valid.antt =====
-- schedules.py: what `validate` returns, and the rows that it leaves in the table.
use mathlib.Core.Path.{subst}
use bastet_agent_os.Prelude.{
  Ensures, String, zero, suc, ◌≡◌, refl, sym, inl, inr, eq_iff, Bool, false, [], ◌∷◌, none, ok,
  ◌==◌, Bool-cases, >>-eq-ok, >>=-eq-ok,
}
use bastet_agent_os.Prelude.Int.{ℤ, pos, negsuc}
use bastet_agent_os.Prelude.Text.{strip}
use bastet_agent_os.Prelude.Strip.{strip_idem}
use bastet_agent_os.Workflow.Json.{Field, missing, null, given}
use bastet_agent_os.Schedules.Cron.{parse_cron}
use bastet_agent_os.Schedules.Next.{Calendar, timezone}
use bastet_agent_os.Schedules.Store.{
  Payload, Value, Object, or_text, text_or, none_if_empty, timeout_or_hour, delivery_or_none,
  enabled_or_true, normalized, check_value, validate, merged, or_current_id,
}

-- A payload without any key.
abbrev pub unchanged : Payload
unchanged = record {
  name = missing;
  cron = missing;
  timezone = missing;
  prompt = missing;
  role = missing;
  agent_id = missing;
  template_id = missing;
  delivery = missing;
  timeout_s = missing;
  enabled = missing;
}

or_text_empty : (s : String) → or_text "" s ≡ s
or_text_empty s = elim (Bool-cases (s == "")) [
  | inl e ↦ rw e (sym ((eq_iff s "").0 e))
  | inr e ↦ rw e refl
]

text_or_again : (f : Field String) → text_or "" (given (text_or "" f)) ≡ text_or "" f
unfolding text_or
text_or_again missing = refl
text_or_again null = refl
text_or_again (given s) = rw (or_text_empty (strip (or_text "" s)), strip_idem (or_text "" s)) refl

text_or_given :
    (default : String) (f : Field String) → strip (text_or default f) ≡ text_or default f
unfolding text_or
text_or_given default missing = strip_idem default
text_or_given default null = strip_idem default
text_or_given default (given s) = strip_idem (or_text default s)

text_or_present :
    (default s : String) → strip s ≡ s → (s == "") ≡ false → text_or default (given s) ≡ s
unfolding text_or
text_or_present default s h e = rw e h

id_again :
    (s : String)
    → strip s ≡ s
    → none_if_empty (text_or "" (or_current_id missing (none_if_empty s))) ≡ none_if_empty s
unfolding text_or
id_again s h = elim (Bool-cases (s == "")) [ inl e ↦ rw e refl | inr e ↦ rw (e, e, h, e) refl ]

timeout_again : (f : Field ℤ) → timeout_or_hour (given (timeout_or_hour f)) ≡ timeout_or_hour f
unfolding timeout_or_hour
timeout_again missing = refl
timeout_again null = refl
timeout_again (given (pos zero)) = refl
timeout_again (given (pos (suc n))) = refl
timeout_again (given (negsuc n)) = refl

delivery_again :
    (f : Field Object) → delivery_or_none (given (delivery_or_none f)) ≡ delivery_or_none f
unfolding delivery_or_none
delivery_again missing = refl
delivery_again null = refl
delivery_again (given []) = refl
delivery_again (given (e ∷ es)) = refl

enabled_again : (f : Field Bool) → enabled_or_true (given (enabled_or_true f)) ≡ enabled_or_true f
unfolding enabled_or_true
enabled_again f = refl

normalized_again :
    (p : Payload)
    → (text_or "UTC" p.timezone == "") ≡ false
    → normalized (merged unchanged (normalized p)) ≡ normalized p
unfolding normalized merged
normalized_again p zone =
    rw
      (
        text_or_again p.name,
        text_or_again p.cron,
        text_or_again p.prompt,
        text_or_again p.role,
        text_or_present "UTC" (text_or "UTC" p.timezone) (text_or_given "UTC" p.timezone) zone,
        id_again (text_or "" p.agent_id) (text_or_given "" p.agent_id),
        id_again (text_or "" p.template_id) (text_or_given "" p.template_id),
        timeout_again p.timeout_s,
        delivery_again p.delivery,
        enabled_again p.enabled,
      )
      refl

-- The checks of `validate` hold of the value, and `validate` would return it as it is.
pub record IsValue (cal : Calendar) (v : Value) : Type 0 where
  pub checked : check_value cal v ≡ ok tt
  pub canonical : normalized (merged unchanged v) ≡ v

zone_named :
    (cal : Calendar) (v : Value)
    → cal.zones "" ≡ none
    → check_value cal v ≡ ok tt
    → (v.timezone == "") ≡ false
unfolding check_value timezone
zone_named cal v blank h = elim (Bool-cases (v.timezone == "")) [
  | inr e ↦ e
  | inl e ↦
      let (c, _, h') = >>=-eq-ok (parse_cron cal.digit_of v.cron) _ h in
      let same : v.timezone ≡ "" = (eq_iff v.timezone "").0 e in
      let bad : ⊥ = cc (rw (same, timezone, blank) at h') in absurd bad
]

pub validate-IsValue :
    (cal : Calendar) (p : Payload) → cal.zones "" ≡ none → Ensures (IsValue cal) (validate cal p)
unfolding validate
validate-IsValue cal p blank = record {
  at = λ v h.
      let ((_, checked), out) = >>-eq-ok (check_value cal (normalized p)) _ h in
      let same : normalized p ≡ v = cc in
      subst (IsValue cal) same (record {
        checked = checked;
        canonical = normalized_again p (zone_named cal (normalized p) blank checked);
      });
}

pub validate_value :
    (cal : Calendar) (v : Value) → IsValue cal v → validate cal (merged unchanged v) ≡ ok v
unfolding validate
validate_value cal v i =
    subst (λ w. check_value cal w ≡ ok tt → validate cal (merged unchanged v) ≡ ok w) i.canonical
      (λ h. rw h refl) i.checked
