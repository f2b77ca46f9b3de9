-- ===== src/Schedules/Store/Validate.antt =====
-- schedules.py: `validate`. A payload has the fields that the server's request models admit: texts, an
-- integer time-out, an object and a Boolean, each possibly missing or null.
use bastet_agent_os.Prelude.{
  zero, suc, String, Bool, true, false, ◌||◌, List, [], ◌∷◌, Option, none, some, Result, ok, ◌>>=◌,
  ◌>>◌, raise_if, ◌==◌, if◌then◌else◌,
}
use bastet_agent_os.Prelude.Int.{ℤ, pos, negsuc, ltz}
use bastet_agent_os.Prelude.Text.{strip}
use bastet_agent_os.Workflow.Json.{Scalar, text, Field, missing, null, given}
use bastet_agent_os.Schedules.Cron.{
  ScheduleError, name_required, prompt_required, timeout_outside, parse_cron,
}
use bastet_agent_os.Schedules.Next.{Calendar, timezone}

abbrev pub Object : Type 0
Object = List (String × Scalar)

pub record Payload : Type 0 where
  pub name : Field String
  pub cron : Field String
  pub timezone : Field String
  pub prompt : Field String
  pub role : Field String
  pub agent_id : Field String
  pub template_id : Field String
  pub delivery : Field Object
  pub timeout_s : Field ℤ
  pub enabled : Field Bool

-- What `validate` returns.
pub record Value : Type 0 where
  pub name : String
  pub cron : String
  pub timezone : String
  pub prompt : String
  pub role : String
  pub agent_id : Option String
  pub template_id : Option String
  pub delivery : Object
  pub timeout_s : ℤ
  pub enabled : Bool

-- `str(payload.get(key) or default).strip()`
abbrev pub or_text : String → String → String
or_text default s = if s == "" then default else s

unfoldable pub text_or : String → Field String → String
unfolding strip
text_or default missing = strip default
text_or default null = strip default
text_or default (given s) = strip (or_text default s)

-- `... or None`
abbrev pub none_if_empty : String → Option String
none_if_empty s = if s == "" then none else some s

-- `payload.get("timeout_s") or 3600`
abbrev pub or_hour : ℤ → ℤ
or_hour (pos zero) = pos 3600
or_hour (pos (suc n)) = pos (suc n)
or_hour (negsuc n) = negsuc n

unfoldable pub timeout_or_hour : Field ℤ → ℤ
timeout_or_hour (given n) = or_hour n
timeout_or_hour missing = pos 3600
timeout_or_hour null = pos 3600

-- `payload.get("delivery") or {"mode": "none"}`
unfoldable pub delivery_or_none : Field Object → Object
delivery_or_none (given (entry ∷ entries)) = entry ∷ entries
delivery_or_none _ = ("mode", text "none") ∷ []

-- `bool(payload.get("enabled", True))`
unfoldable pub enabled_or_true : Field Bool → Bool
enabled_or_true missing = true
enabled_or_true null = false
enabled_or_true (given b) = b

-- The dictionary that `validate` returns once its checks have passed.
unfoldable pub normalized : Payload → Value
unfolding text_or timeout_or_hour delivery_or_none enabled_or_true
normalized p = record {
  name = text_or "" p.name;
  cron = text_or "" p.cron;
  timezone = text_or "UTC" p.timezone;
  prompt = text_or "" p.prompt;
  role = text_or "" p.role;
  agent_id = none_if_empty (text_or "" p.agent_id);
  template_id = none_if_empty (text_or "" p.template_id);
  delivery = delivery_or_none p.delivery;
  timeout_s = timeout_or_hour p.timeout_s;
  enabled = enabled_or_true p.enabled;
}

-- The checks, in the order of `validate`.
unfoldable pub check_value : Calendar → Value → Result ScheduleError (Unit {0})
check_value cal v = parse_cron cal.digit_of v.cron >>= (λ _. timezone cal v.timezone >>= (λ _.
    raise_if (v.name == "") name_required
    >> raise_if (v.prompt == "") prompt_required
    >> raise_if (ltz v.timeout_s (pos 60) || ltz (pos 86400) v.timeout_s) timeout_outside))

unfoldable pub validate : Calendar → Payload → Result ScheduleError Value
unfolding normalized check_value
validate cal p = check_value cal (normalized p) >> ok (normalized p)
