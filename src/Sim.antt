-- ===== src/Sim.antt =====
-- The simulator of sim/engine.go: its data and the scripted upstream.
-- `sort.Slice` may leave equal elements in any order, so the sort is an argument. The hook of a scripted
-- reset may change what the server holds and answers, not the record of the calls. The states and the
-- credits of package sim have the same fields as those of the plugin and are shared here. Counts of calls
-- are natural numbers, an attempt is a Go `int`. The text that `fmt.Sprintf` makes of a count and a credit
-- for a request identifier is an argument.
pub mod Tools
pub mod Patrol
pub mod Redeem
pub mod Steps
pub mod Engine
pub mod Targets
pub mod Agree
use cpa_plugin_codex_auto_re.Prelude.{
  ℕ, zero, suc, ◌+◌, ◌-◌, ℤ, pos, String, Bool, true, false, not, ◌&&◌, ◌||◌, Option, none, some,
  List, [], ◌∷◌, ◌++◌, map, length, select, if◌then◌else◌, str_eq, ltb, ltb_ℤ,
}
use cpa_plugin_codex_auto_re.Models.{
  Time, Duration, zero_time, is_zero, hours, minutes, State, idle, armed, confirming, resetting,
  verifying, done, Credit, Message, say, NextAt,
}
use cpa_plugin_codex_auto_re.Client.{GoError}

pub record SimConfig : Type 0 where
  pub refresh_interval : Duration
  pub trigger_lead_time : Duration
  pub post_reset_delay : Duration

unfoldable pub default_sim_config : SimConfig
default_sim_config = record {
  refresh_interval = hours 12;
  trigger_lead_time = hours 6;
  post_reset_delay = minutes 1;
}

pub record SimSnapshot : Type 0 where
  pub available_count : ℕ
  pub credits : List Credit
  pub weekly_pct : ℤ

-- The part of `FakeOpenAIClient` that scripts the server.
pub record Server : Type 0 where
  pub credits : List (String × Credit)
  pub weekly_pct : ℤ
  pub consume_code : String
  pub windows_reset : ℤ
  pub fail_first_n : ℕ
  pub fail_err : Option GoError

-- The part that records the calls.
pub record Calls : Type 0 where
  pub list_calls : ℕ
  pub usage_calls : ℕ
  pub consumed_calls : ℕ
  pub consumed_ids : List String
  pub redeem_requests : List String

pub record FakeClient : Type 0 where
  pub server : Server
  pub calls : Calls

-- A credit that has not expired; one that never expires counts.
abbrev pub is_unexpired : Time → Credit → Bool
is_unexpired now c = not (not (is_zero c.expires_at) && not (ltb_ℤ now c.expires_at))

abbrev pub is_available : Credit → Bool
is_available c = str_eq c.status "available"

abbrev pub credit_rows : List (String × Credit) → List Credit
credit_rows [] = []
credit_rows ((id, c) ∷ rest) = c ∷ credit_rows rest

-- The snapshot of `list`.
unfoldable pub list_snapshot : (List Credit → List Credit) → Time → Server → SimSnapshot
list_snapshot sort now s =
    let credits = sort (select (is_unexpired now) (credit_rows s.credits)) in
    record {
      available_count = length (select is_available credits);
      credits = credits;
      weekly_pct = s.weekly_pct;
    }

-- The snapshot of `usage`.
unfoldable pub usage_snapshot : Server → SimSnapshot
usage_snapshot s = record {
  available_count = length (select is_available (credit_rows s.credits));
  credits = [];
  weekly_pct = s.weekly_pct;
}

-- What `consume` answers: a code and a number of windows, or an error.
pub record Consumed : Type 0 where
  pub code : String
  pub windows_reset : ℤ
  pub error : Option GoError

abbrev pub fails : Server → Bool
fails s = ltb 0 s.fail_first_n && (elim (s.fail_err) [ none ↦ false | some e ↦ true ])

abbrev pub hooked : Option (String → Server → Server) → String → Server → Server
hooked none credit s = s
hooked (some hook) credit s =
    if str_eq s.consume_code "reset" || str_eq s.consume_code "already_redeemed"
    then hook credit s
    else s

-- The code and the windows are read after the hook has run.
unfoldable pub consume_server :
    Option (String → Server → Server) → String → Server → Consumed × Server
consume_server hook credit s =
    if fails s
    then (
      record { code = ""; windows_reset = pos 0; error = s.fail_err },
      record s { fail_first_n = s.fail_first_n - 1 },
    )
    else (let after = hooked hook credit s in
        (
          record { code = after.consume_code; windows_reset = after.windows_reset; error = none },
          after,
        ))

abbrev pub state_name : State → String
state_name idle = "IDLE"
state_name armed = "ARMED"
state_name confirming = "CONFIRMING"
state_name resetting = "RESETTING"
state_name verifying = "VERIFYING"
state_name done = "DONE"

pub data EventType : Type 0 where
  state_change http_list http_usage http_consume log : EventType

pub record Event : Type 0 where
  pub time : Time
  pub kind : EventType
  pub state : State
  pub detail : Message
  pub next : NextAt

pub record Outcome : Type 0 where
  pub reset_at : Time
  pub consumed_ids : List String
  pub num_consume_post : ℕ
  pub num_list_calls : ℕ
  pub num_usage_calls : ℕ
  pub final_state : State
  pub events : List Event
  pub gave_up : Bool
  pub give_up_reason : Message

-- `accountFSM`, but for its unused `credit`.
pub record SimFsm : Type 0 where
  pub cfg : SimConfig
  pub client : FakeClient
  pub now : Time
  pub state : State
  pub redeem_id : String
  pub target_id : String
  pub pre_snap : SimSnapshot
  pub attempt : ℤ
  pub next_retry : Time
  pub verify_due : Time
  pub out : Outcome

abbrev pub no_sim_snapshot : SimSnapshot
no_sim_snapshot = record { available_count = 0; credits = []; weekly_pct = pos 0 }

unfoldable pub new_fsm : SimConfig → FakeClient → Time → SimFsm
new_fsm cfg client start = record {
  cfg = cfg;
  client = client;
  now = start;
  state = idle;
  redeem_id = "";
  target_id = "";
  pre_snap = no_sim_snapshot;
  attempt = pos 0;
  next_retry = zero_time;
  verify_due = zero_time;
  out = record {
    reset_at = zero_time;
    consumed_ids = [];
    num_consume_post = 0;
    num_list_calls = 0;
    num_usage_calls = 0;
    final_state = idle;
    events = [];
    gave_up = false;
    give_up_reason = say "";
  };
}
