-- ===== src/Fsm/Machine.antt =====
-- One account's state machine in resetbank.go: its fields, what it calls, and the accessors.
-- `mu` is held for the whole of each method, so a method is one step on the fields. The client, the
-- clock, the uuid package and the logging callback act on a world `W` that the machine does not look
-- into; a method returns its result with the new fields and the new world.
use Prim.Native.String.{len, slice, ◌++◌}
use text.Mathlib.Text.{starts_with}
use cpa_plugin_codex_auto_re.Prelude.{
  St, ◌>>=◌, ◌>>◌, pure, pos, String, Bool, false, true, Option, none, List, if◌then◌else◌, ltb,
  ◌≤ℤ◌, ◌+ℤ◌, ◌-ℤ◌, wrap64,
}
use cpa_plugin_codex_auto_re.Models.{
  Time, zero_time, State, idle, confirming, resetting, verifying, done, Credit, Snapshot,
  no_snapshot, ResetAttempt, no_attempt, Message, say, Value, NextAt, ResetRecord, Config,
  CodexCredentials,
}
use cpa_plugin_codex_auto_re.Client.{GoError, ConsumeResponse, Result}

-- A call of the `LogFn` callback.
pub record LogCall : Type 0 where
  pub level : String
  pub scope : String
  pub state : State
  pub message : Message
  pub next_action : Message
  pub next_at : NextAt
  pub details : List (String × Value)

-- `ResetClient`, `Now`, `uuid.NewString` and `Logf`.
pub record Env (W : Type 0) : Type 0 where
  pub now : W → Time × W
  pub list_credits : CodexCredentials → W → Result Snapshot × W
  pub get_usage : CodexCredentials → W → Result Snapshot × W
  pub consume : CodexCredentials → String → String → W → (ConsumeResponse × Option GoError) × W
  pub new_uuid : W → String × W
  pub logf : LogCall → W → W

-- The clock never shows Go's zero time or an earlier one.
abbrev pub Ticking : {W : Type 0} → Env W → Type 0
Ticking {W} env = (w : W) → pos 1 ≤ℤ (env.now w).0

pub record AccountFsm : Type 0 where
  pub auth_id : String
  pub creds : CodexCredentials
  pub cfg : Config
  pub state : State
  pub attempt : ResetAttempt
  pub next_wake : Time
  pub verify_due : Time
  pub scheduled_credit_id : String
  pub manual_reset : Bool
  pub pending_history : Option ResetRecord
  pub last_snapshot : Snapshot

pub record Machine (W : Type 0) : Type 0 where
  pub fsm : AccountFsm
  pub world : W

abbrev pub M : Type 0 → Type 0 → Type 0
M W A = St (Machine W) A

abbrev pub get : {W : Type 0} → M W AccountFsm
get s = (s.fsm, s)

abbrev pub modify : {W : Type 0} → (AccountFsm → AccountFsm) → M W (Unit {0})
modify g s = (tt, record s { fsm = g s.fsm })

-- A call that leaves the fields alone.
abbrev pub lift : {W A : Type 0} → (W → A × W) → M W A
lift g s = ((g s.world).0, record s { world = (g s.world).1 })

-- Long identifiers, shortened for the log: bytes 0 to 8 and an ellipsis.
unfoldable pub short_id : String → String
short_id id =
    let prefix : String = "RateLimitResetCredit_" in
    let s = if starts_with id prefix then slice id (len prefix) (len id) else id in
    if ltb 10 (len s) then slice s 0 8 ++ "…" else s

module _ {W : Type 0} (env : Env W) where
  -- `f.now()`.
  abbrev pub clock : M W Time
  clock = lift env.now

  -- `f.log(…)`.
  abbrev pub log : String → Message → Message → NextAt → List (String × Value) → M W (Unit {0})
  log level msg next_action next_at details s = (
    tt,
    record s {
      world =
          env.logf
            (record {
              level = level;
              scope = s.fsm.auth_id;
              state = s.fsm.state;
              message = msg;
              next_action = next_action;
              next_at = next_at;
              details = details;
            })
            s.world;
    },
  )

  -- The returns that end the cycle.
  abbrev pub abandon : String → Message → List (String × Value) → M W Time
  abandon level msg details = do
    modify (λ f. record f { state = done })
    log level msg (say "abandon") NextAt.nil details
    pure zero_time

unfoldable pub new_account_fsm : String → CodexCredentials → Config → AccountFsm
new_account_fsm auth_id creds cfg = record {
  auth_id = auth_id;
  creds = creds;
  cfg = cfg;
  state = idle;
  attempt = no_attempt;
  next_wake = zero_time;
  verify_due = zero_time;
  scheduled_credit_id = "";
  manual_reset = false;
  pending_history = none;
  last_snapshot = no_snapshot;
}

unfoldable pub set_next_wake : Time → AccountFsm → AccountFsm
set_next_wake t f = record f { next_wake = t }

-- T, the moment the trigger window opens.
unfoldable pub trigger_time : AccountFsm → Credit → Time
trigger_time f c = c.expires_at +ℤ wrap64 (pos 0 -ℤ f.cfg.trigger_lead_time)

-- The moment the account is armed.
unfoldable pub arm_threshold : AccountFsm → Credit → Time
arm_threshold f c = trigger_time f c +ℤ wrap64 (pos 0 -ℤ f.cfg.refresh_interval)

abbrev pub is_submitted : State → Bool
is_submitted resetting = true
is_submitted verifying = true
is_submitted _ = false

abbrev pub is_done : State → Bool
is_done done = true
is_done _ = false

-- The body of `ForceConfirm` behind its guard.
confirm_manually : Time → AccountFsm → AccountFsm
confirm_manually now f = record f {
  scheduled_credit_id = "";
  manual_reset = true;
  state = confirming;
  next_wake = now;
}

unfoldable pub force_confirm : {W : Type 0} → Env W → M W (Unit {0})
unfolding confirm_manually
force_confirm env = do
  f ← get
  if is_submitted f.state then pure tt else do now ← clock env; modify (confirm_manually now)

unfoldable pub reset_locked : AccountFsm → AccountFsm
reset_locked f = record f {
  state = idle;
  attempt = no_attempt;
  verify_due = zero_time;
  next_wake = zero_time;
  scheduled_credit_id = "";
  manual_reset = false;
}

unfoldable pub take_pending_history : AccountFsm → Option ResetRecord × AccountFsm
take_pending_history f = (f.pending_history, record f { pending_history = none })
