-- ===== src/History/Mirror.antt =====
-- The `StateSync` closure that main.go gives the worker: `syncFSMIntoGlobalState`, `afterVerifiedReset` and
-- `debouncedSaveState`, and a host that is wired to it.
-- `resetRoutingCooldown` calls the host and is an argument; so are the JSON coders of the state file.
use cpa_plugin_codex_auto_re.Prelude.{
  Bool, ℕ, pos, String, Option, none, some, [], ◌∷◌, if◌then◌else◌, ltb_ℤ,
}
use cpa_plugin_codex_auto_re.Models.{
  Time, Duration, seconds, State, Message, say, Value, NextAt, ResetRecord,
}
use cpa_plugin_codex_auto_re.Client.{Result, ok, err}
use cpa_plugin_codex_auto_re.LogRing.{append, all}
use cpa_plugin_codex_auto_re.Fsm.Machine.{AccountFsm}
use cpa_plugin_codex_auto_re.Store.{PluginState}
use cpa_plugin_codex_auto_re.Store.Disk.{Disk}
use cpa_plugin_codex_auto_re.Store.File.{save_state}
use cpa_plugin_codex_auto_re.Worker.State.{Out, Host}
use cpa_plugin_codex_auto_re.Worker.Accounts.{sub_time}
use cpa_plugin_codex_auto_re.History.{sync_fsm_into_global_state}

-- The host's own state with `globalState`, its file and `lastStatePersist`.
pub record Wired (H : Type 0) : Type 0 where
  pub inner : H
  pub state : PluginState
  pub disk : Disk
  pub last_state_persist : Time

abbrev pub state_sync_persist_interval : Duration
state_sync_persist_interval = seconds 5

abbrev pub verdict_message : Result ℕ → Message
verdict_message (ok models) = record {
  format = "reset verified; cleared CPA core routing cooldown for %d model(s)";
  args = Value.int (pos models) ∷ [];
}
verdict_message (err e) = record {
  format = "reset verified, but clearing CPA core cooldown failed: %s";
  args = Value.err_text e ∷ [];
}

abbrev pub verdict_level : Result ℕ → String
verdict_level (ok models) = "info"
verdict_level (err e) = "warn"

module _ {H : Type 0} (base : Host H) (reset_routing_cooldown : String → H → Result ℕ × H)
    (path : String) (marshal : PluginState → Option String)
    (unmarshal : String → Option PluginState) where
  -- `afterVerifiedReset` for a record that says success.
  abbrev cooled : String → Out (Wired H) → Out (Wired H)
  cooled id o =
      let r = reset_routing_cooldown id o.host.inner in
      let t = base.now r.1 in
      let logs = append o.logs (record {
        timestamp = t.0;
        level = verdict_level r.0;
        scope = id;
        state = some State.done;
        message = verdict_message r.0;
        next_action = say "";
        next_at = NextAt.nil;
        details = [];
      }) in
      record {
        host = record (o.host) { inner = t.1; state = record (o.host.state) { logs = all logs } };
        logs = logs;
      }

  unfoldable pub after_verified_reset : String → Option ResetRecord → Out (Wired H) → Out (Wired H)
  unfolding all append
  after_verified_reset id none o = o
  after_verified_reset id (some r) o = if r.success then cooled id o else o

  abbrev persisted : Out (Wired H) → Out (Wired H)
  persisted o =
      let t = base.now o.host.inner in
      record o {
        host = record (o.host) {
          inner = t.1;
          last_state_persist = t.0;
          disk = (save_state marshal unmarshal path o.host.state o.host.disk).1;
        };
      }

  -- `SaveStateNow`.
  unfoldable pub save_state_now : Out (Wired H) → Bool × Out (Wired H)
  unfolding save_state
  save_state_now o =
      let t = base.now o.host.inner in
      let saved = save_state marshal unmarshal path o.host.state o.host.disk in
      (
        saved.0,
        record o {
          host = record (o.host) { inner = t.1; last_state_persist = t.0; disk = saved.1 };
        },
      )

  -- `debouncedSaveState`: the clock is read once for the test and, for a save, once more.
  unfoldable pub debounced_save_state : Out (Wired H) → Out (Wired H)
  unfolding save_state sub_time
  debounced_save_state o =
      let t = base.now o.host.inner in
      let read = record o { host = record (o.host) { inner = t.1 } } in
      if ltb_ℤ (sub_time t.0 o.host.last_state_persist) state_sync_persist_interval
      then read
      else persisted read

  -- The closure: mirror the machine, clear the cooldown, write the file.
  unfoldable pub state_sync : String → AccountFsm → Out (Wired H) → AccountFsm × Out (Wired H)
  state_sync id fsm o =
      let r = sync_fsm_into_global_state o.logs id fsm o.host.state in
      let synced = record o { host = record (o.host) { state = r.1 } } in
      (r.0.1, debounced_save_state (after_verified_reset id r.0.0 synced))

  -- The worker's host, with the closure as its `StateSync`.
  abbrev pub wired : Host (Wired H)
  wired = record {
    now = λ w. ((base.now w.inner).0, record w { inner = (base.now w.inner).1 });
    load_creds = λ id w.
        ((base.load_creds id w.inner).0, record w { inner = (base.load_creds id w.inner).1 });
    list_credits = λ c w.
        ((base.list_credits c w.inner).0, record w { inner = (base.list_credits c w.inner).1 });
    get_usage =
        λ c w. ((base.get_usage c w.inner).0, record w { inner = (base.get_usage c w.inner).1 });
    consume = λ c key credit w. (
      (base.consume c key credit w.inner).0,
      record w { inner = (base.consume c key credit w.inner).1 },
    );
    new_uuid = λ w. ((base.new_uuid w.inner).0, record w { inner = (base.new_uuid w.inner).1 });
    enumerate = elim (base.enumerate) [
      | none ↦ none
      | some query ↦ some (λ w. ((query w.inner).0, record w { inner = (query w.inner).1 }))
    ];
    state_sync = state_sync;
  }
