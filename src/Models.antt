-- ===== src/Models.antt =====
-- The data of the plugin: models.go, constants.go, and the records of config.go, auth.go and state.go
-- that the state machine and the worker share.
-- A `time.Time` is the integer of its nanoseconds from Go's zero time (year 1), a `time.Duration` the
-- integer of its nanoseconds. The years that RFC 3339 can write lie so far inside Go's range of times
-- that adding a duration to one never wraps.
pub mod Credits
use cpa_plugin_codex_auto_re.Prelude.{
  ℕ, ◌*◌, ℤ, pos, String, Bool, Option, none, some, List, [], ◌∷◌, ◌+ℤ◌, ◌-ℤ◌, eqb_ℤ, wrap64,
}
use cpa_plugin_codex_auto_re.Client.{GoError}

abbrev pub Time : Type 0
Time = ℤ

abbrev pub Duration : Type 0
Duration = ℤ

-- `time.Time{}`.
abbrev pub zero_time : Time
zero_time = pos 0

abbrev pub is_zero : Time → Bool
is_zero t = eqb_ℤ t zero_time

abbrev pub seconds : ℕ → Duration
seconds n = pos (n * 1000000000)

abbrev pub minutes : ℕ → Duration
minutes n = seconds (n * 60)

abbrev pub hours : ℕ → Duration
hours n = minutes (n * 60)

-- constants.go.
abbrev pub post_reset_verify_delay : Duration
post_reset_verify_delay = minutes 1

abbrev pub max_log_entries : ℕ
max_log_entries = 1000

abbrev pub log_retention : Duration
log_retention = hours (7 * 24)

abbrev pub credential_retry_interval : Duration
credential_retry_interval = minutes 30

abbrev pub wildcard_resolve_interval : Duration
wildcard_resolve_interval = minutes 1

abbrev pub reset_retry_delays : List Duration
reset_retry_delays = minutes 1 ∷ minutes 2 ∷ minutes 5 ∷ minutes 10 ∷ minutes 30 ∷ []

pub data State : Type 0 where
  idle armed confirming resetting verifying done : State

pub State-discrete : Discrete State
State-discrete = hlevel

-- A zero `expires_at` means "never expires".
pub record Credit : Type 0 where
  pub id : String
  pub status : String
  pub expires_at : Time

pub record Snapshot : Type 0 where
  pub available_count : ℤ
  pub credits : List Credit
  pub weekly_pct : ℤ
  pub captured_at : Time

pub record ResetAttempt : Type 0 where
  pub redeem_request_id : String
  pub target_credit_id : String
  pub pre_snapshot : Snapshot
  pub started_at : Time
  pub attempt : ℤ
  pub next_retry_at : Time

-- `Snapshot{}`, `Credit{}` and `ResetAttempt{}`.
abbrev pub no_snapshot : Snapshot
no_snapshot = record {
  available_count = pos 0;
  credits = [];
  weekly_pct = pos 0;
  captured_at = zero_time;
}

abbrev pub no_credit_row : Credit
no_credit_row = record { id = ""; status = ""; expires_at = zero_time }

abbrev pub no_attempt : ResetAttempt
no_attempt = record {
  redeem_request_id = "";
  target_credit_id = "";
  pre_snapshot = no_snapshot;
  started_at = zero_time;
  attempt = pos 0;
  next_retry_at = zero_time;
}

-- What is handed to `fmt.Sprintf` or put into a details map.
pub data Value : Type 0 where
  text : String → Value
  int : ℤ → Value
  -- The `float64` that the JSON decoder makes of a whole number.
  number : ℤ → Value
  flag : Bool → Value
  time : Time → Value
  duration : Duration → Value
  err_text : GoError → Value
  -- `t.Sub(now).Round(unit)` and `t.Format("15:04:05")`.
  until : Time → Time → Duration → Value
  clock_text : Time → Value

-- A formatted text, as the call of `fmt.Sprintf` that makes it.
pub record Message : Type 0 where
  pub format : String
  pub args : List Value

abbrev pub say : String → Message
say s = record { format = s; args = [] }

-- The `*time.Time` of a log entry: nil, a pointer to a variable of the call, or a pointer into the
-- state machine that wrote the entry.
pub data NextAt : Type 0 where
  nil : NextAt
  at : Time → NextAt
  verify_due_field : NextAt
  next_retry_field : NextAt

pub record LogEntry : Type 0 where
  pub timestamp : Time
  pub level : String
  pub scope : String
  pub state : Option State
  pub message : Message
  pub next_action : Message
  pub next_at : NextAt
  pub details : List (String × Value)

pub record ResetRecord : Type 0 where
  pub timestamp : Time
  pub auth_id : String
  pub credit_id : String
  pub success : Bool
  pub pre_weekly_pct : ℤ
  pub post_weekly_pct : ℤ
  pub pre_credits : ℤ
  pub post_credits : ℤ

-- config.go.
pub record Config : Type 0 where
  pub refresh_interval : Duration
  pub trigger_lead_time : Duration
  pub enabled_accounts : List String
  pub state_dir : String

-- auth.go.
pub record CodexCredentials : Type 0 where
  pub access_token : String
  pub refresh_token : String
  pub id_token : String
  pub chat_gpt_account_id : String
  pub expires_at : Time
