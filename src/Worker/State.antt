-- ===== src/Worker/State.antt =====
-- The worker of worker.go: its fields, and what it calls.
-- The worker's mutex guards single accesses of its fields. One goroutine runs the loop; the calls of
-- other goroutines (triggers, stop) are operations of their own on the same state. A Go map is an
-- association list, in the order in which a `range` over it happens to run.
use cpa_plugin_codex_auto_re.Prelude.{
  St, ◌>>=◌, pure, String, Bool, false, true, Option, some, List, [], if◌then◌else◌,
}
use cpa_plugin_codex_auto_re.Models.{
  Time, zero_time, State, LogEntry, Message, Value, NextAt, Config, CodexCredentials, Snapshot,
}
use cpa_plugin_codex_auto_re.Config.{config_enables_all}
use cpa_plugin_codex_auto_re.Client.{GoError, ConsumeResponse, Result}
use cpa_plugin_codex_auto_re.LogRing.{LogRing, append}
use cpa_plugin_codex_auto_re.Fsm.Machine.{Env, LogCall, AccountFsm}

pub record Worker : Type 0 where
  pub cfg : Config
  pub enabled : List String
  pub resolved_enabled : List String
  pub fsms : List (String × AccountFsm)
  pub missing_retry_at : List (String × Time)
  pub last_resolve_at : Time
  pub stopped : Bool
  -- Whether the buffered `wakeCh` holds a nudge.
  pub wake_pending : Bool

-- What the log of the worker and the calls of its state machines act on.
pub record Out (H : Type 0) : Type 0 where
  pub host : H
  pub logs : LogRing

-- The worker with its log and the host.
pub record Running (H : Type 0) : Type 0 where
  pub worker : Worker
  pub out : Out H

-- The clock, the credential loader with the client that it returns, the uuid package, the account
-- enumerator (if it is wired) and the state mirror that runs after each step.
pub record Host (H : Type 0) : Type 0 where
  pub now : H → Time × H
  pub load_creds : String → H → Result CodexCredentials × H
  pub list_credits : CodexCredentials → H → Result Snapshot × H
  pub get_usage : CodexCredentials → H → Result Snapshot × H
  pub consume : CodexCredentials → String → String → H → (ConsumeResponse × Option GoError) × H
  pub new_uuid : H → String × H
  pub enumerate : Option (H → Result (List String) × H)
  pub state_sync : String → AccountFsm → Out H → AccountFsm × Out H

abbrev pub R : Type 0 → Type 0 → Type 0
R H A = St (Running H) A

abbrev pub get : {H : Type 0} → R H Worker
get s = (s.worker, s)

abbrev pub modify : {H : Type 0} → (Worker → Worker) → R H (Unit {0})
modify g s = (tt, record s { worker = g s.worker })

abbrev pub lift : {H A : Type 0} → (H → A × H) → R H A
lift g s = ((g s.out.host).0, record s { out = record (s.out) { host = (g s.out.host).1 } })

module _ {H : Type 0} (host : Host H) where
  -- `w.nowFn()`.
  abbrev pub clock : R H Time
  clock = lift host.now

  -- `w.logs.append`, stamped by a reading of the clock.
  abbrev pub record_out : (Time → LogEntry) → Out H → Out H
  record_out entry o = record {
    host = (host.now o.host).1;
    logs = append o.logs (entry (host.now o.host).0);
  }

  abbrev pub log_entry :
      String
      → String
      → Option State
      → Message
      → Message
      → NextAt
      → List (String × Value)
      → Time
      → LogEntry
  log_entry level scope state msg next_action next_at details t = record {
    timestamp = t;
    level = level;
    scope = scope;
    state = state;
    message = msg;
    next_action = next_action;
    next_at = next_at;
    details = details;
  }

  abbrev pub log : (Time → LogEntry) → R H (Unit {0})
  log entry s = (tt, record s { out = record_out entry s.out })

  -- `makeLogFn`.
  abbrev pub log_fn : LogCall → Out H → Out H
  log_fn c =
      record_out
        (log_entry c.level c.scope (some c.state) c.message c.next_action c.next_at c.details)

  -- What a state machine of this worker calls.
  abbrev pub env_of : Env (Out H)
  env_of = record {
    now = λ o. ((host.now o.host).0, record o { host = (host.now o.host).1 });
    list_credits =
        λ c o. ((host.list_credits c o.host).0, record o { host = (host.list_credits c o.host).1 });
    get_usage =
        λ c o. ((host.get_usage c o.host).0, record o { host = (host.get_usage c o.host).1 });
    consume = λ c key credit o. (
      (host.consume c key credit o.host).0,
      record o { host = (host.consume c key credit o.host).1 },
    );
    new_uuid = λ o. ((host.new_uuid o.host).0, record o { host = (host.new_uuid o.host).1 });
    logf = log_fn;
  }

unfoldable pub new_worker : Config → List String → Worker
unfolding config_enables_all
new_worker cfg enabled = record {
  cfg = cfg;
  enabled = enabled;
  resolved_enabled = if config_enables_all enabled then [] else enabled;
  fsms = [];
  missing_retry_at = [];
  last_resolve_at = zero_time;
  stopped = false;
  wake_pending = false;
}

-- A nudge; the channel holds one.
unfoldable pub wake : {H : Type 0} → R H (Unit {0})
wake = modify (λ w. record w { wake_pending = true })

unfoldable pub stop : {H : Type 0} → R H (Unit {0})
stop = do w ← get; if w.stopped then pure tt else modify (λ v. record v { stopped = true })
