-- ===== src/Scenarios/Mirror.antt =====
-- The theorems on the wired worker, at work on one account.
use cpa_plugin_codex_auto_re.Prelude.{
  ℕ, ◌≡◌, refl, String, true, Option, none, some, [], ◌∷◌, pos, arith,
}
use cpa_plugin_codex_auto_re.Models.{hours, zero_time, State, ResetRecord}
use cpa_plugin_codex_auto_re.Client.{Result, ok}
use cpa_plugin_codex_auto_re.LogRing.{new_log_ring, all}
use cpa_plugin_codex_auto_re.Fsm.Machine.{AccountFsm}
use cpa_plugin_codex_auto_re.Store.{PluginState}
use cpa_plugin_codex_auto_re.Store.File.{fresh_state}
use cpa_plugin_codex_auto_re.Worker.State.{Out, Running, new_worker}
use cpa_plugin_codex_auto_re.Worker.Loop.{run_start, run_once}
use cpa_plugin_codex_auto_re.Worker.Sound.{IsSound}
use cpa_plugin_codex_auto_re.Worker.Reach.{Reached, WorkerStep}
use cpa_plugin_codex_auto_re.History.Mirror.{Wired, state_sync}
use cpa_plugin_codex_auto_re.History.Wiring.{
  IsRemembered, plugin_host, wired-IsSound, state_sync_lem,
}
use cpa_plugin_codex_auto_re.Scenarios.Sample.{config, account, attempt, host, due}

abbrev cooldown : String → ℕ → Result ℕ × ℕ
cooldown id h = (ok 3, h)

abbrev marshal : PluginState → Option String
marshal s = some "S"

abbrev unmarshal : String → Option PluginState
unmarshal b = some fresh_state

abbrev out : Out (Wired ℕ)
out = record {
  host = record {
    inner = due;
    state = fresh_state;
    disk = record { files = []; failing = 0; full = none; can_mkdir = true };
    last_state_persist = zero_time;
  };
  logs = new_log_ring 3;
}

abbrev started : Running (Wired ℕ)
started =
    (run_start (plugin_host host cooldown "main" marshal unmarshal)
      (record { worker = new_worker config ("a" ∷ []); out = out })).1

wired-IsSound_example :
    IsSound config (run_once (plugin_host host cooldown "main" marshal unmarshal) started).1
wired-IsSound_example =
    wired-IsSound host cooldown "main" marshal unmarshal (λ h. ground arith) config (ground arith)
      ("a" ∷ []) (run_once (plugin_host host cooldown "main" marshal unmarshal) started).1
      (Reached.stepped (Reached.started out) (WorkerStep.turn refl))

abbrev finished : ResetRecord
finished = record {
  timestamp = hours 7;
  auth_id = "a";
  credit_id = "c1";
  success = true;
  pre_weekly_pct = pos 40;
  post_weekly_pct = pos 100;
  pre_credits = pos 2;
  post_credits = pos 1;
}

abbrev with_record : AccountFsm
with_record = record (account State.idle attempt "") { pending_history = some finished }

state_sync_lem_example :
    let (after, t) = state_sync host cooldown "main" marshal unmarshal "a" with_record out in
    IsRemembered (some finished) [] t.host.state.reset_history
    × (t.host.state.logs ≡ all t.logs)
    × (after.pending_history ≡ none)
state_sync_lem_example = state_sync_lem host cooldown "main" marshal unmarshal "a" with_record out
