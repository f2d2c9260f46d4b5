-- ===== src/Worker/Reach.antt =====
-- The worker's whole life as a step relation: turns of its loop, panics, and the calls that other
-- goroutines make between them.
use mathlib.Core.Path.{subst}
use cpa_plugin_codex_auto_re.Prelude.{
  ◌≡◌, refl, sym, ◌∙◌, pos, ◌≤ℤ◌, String, Option, some, none, List, [], ◌∷◌, arith, Each,
  Each-insert, Each-lookup, lookup, str_eq,
}
use cpa_plugin_codex_auto_re.Models.{Time, Config}
use cpa_plugin_codex_auto_re.Fsm.Machine.{AccountFsm, force_confirm, set_next_wake}
use cpa_plugin_codex_auto_re.Worker.State.{Out, Running, Host, new_worker, wake, stop}
use cpa_plugin_codex_auto_re.Worker.Loop.{run_once, run_start, recover_account, put}
use cpa_plugin_codex_auto_re.Worker.Triggers.{
  pull, pull_all, confirm_fsm, trigger_one, confirm_found, trigger_check, force_confirm_account,
}
use cpa_plugin_codex_auto_re.Worker.Sound.{IsAwake, IsSound, IsFair, branch, after_clock}
use cpa_plugin_codex_auto_re.Worker.Steps.{
  recover_account-IsSound, run_once-IsSound, run_start-IsSound,
}

pub data WorkerStep {H : Type 0} (host : Host H) (s t : Running H) : Type 0 where
  turn : t ≡ (run_once host s).1 → WorkerStep host s t
  -- A panic in the step of account `id`, which leaves its machine half way.
  panicked :
      (id reason : String) (fsm : AccountFsm)
      → fsm.cfg ≡ s.worker.cfg
      → t ≡ (recover_account host id reason (put id fsm s).1).1
      → WorkerStep host s t
  checked : (id : String) → t ≡ (trigger_check host id s).1 → WorkerStep host s t
  forced : (id : String) → t ≡ (force_confirm_account host id s).1 → WorkerStep host s t
  stopping : t ≡ (stop s).1 → WorkerStep host s t

-- From the start of `Run` on a fresh worker.
pub data Reached {H : Type 0} (host : Host H) (cfg : Config) (enabled : List String)
    : Running H → Type 0 where
  started :
      (out : Out H)
      → Reached host cfg enabled
          (run_start host (record { worker = new_worker cfg enabled; out = out })).1
  stepped :
      {s t : Running H}
      → Reached host cfg enabled s
      → WorkerStep host s t
      → Reached host cfg enabled t

module _ {H : Type 0} (host : Host H) (fair : IsFair host) (cfg : Config) where
  pull_all-IsAwake :
      (now : Time) (fs : List (String × AccountFsm))
      → pos 1 ≤ℤ now
      → Each (IsAwake cfg) fs
      → Each (IsAwake cfg) (pull_all now fs)
  unfolding set_next_wake
  pull_all-IsAwake now [] h v = tt
  pull_all-IsAwake now ((id, fsm) ∷ fs) h v =
      ((ground (arith, h, v.0), ground (arith, h, v.0)), pull_all-IsAwake now fs h v.1)

  pulled :
      (now : Time) (fsm : AccountFsm) → pos 1 ≤ℤ now → IsAwake cfg fsm → IsAwake cfg (pull now fsm)
  pulled now fsm h a = (pull_all-IsAwake now (("", fsm) ∷ []) h (a, tt)).0

  trigger_one-IsSound :
      (id : String) (now : Time) (found : Option AccountFsm) (s : Running H)
      → pos 1 ≤ℤ now
      → lookup id s.worker.fsms ≡ found
      → IsSound cfg s
      → IsSound cfg (trigger_one host id now found s).1
  unfolding trigger_one
  trigger_one-IsSound id now none s h e v = v
  trigger_one-IsSound id now (some fsm) s h e v = record {
    same_cfg = v.same_cfg;
    awake =
        Each-insert (IsAwake cfg) id (pull now fsm) s.worker.fsms
          (pulled now fsm h (Each-lookup (IsAwake cfg) id s.worker.fsms v.awake e)) v.awake;
  }

  trigger_check-IsSound :
      (id : String) (s : Running H) → IsSound cfg s → IsSound cfg (trigger_check host id s).1
  unfolding trigger_check wake
  trigger_check-IsSound id s v =
      let now = (host.now s.out.host).0 in
      branch cfg (str_eq id "") _ (trigger_one host id now (lookup id s.worker.fsms))
        (after_clock host fair cfg s)
        (record {
          same_cfg = v.same_cfg;
          awake = pull_all-IsAwake now s.worker.fsms (fair.ticking s.out.host) v.awake;
        })
        (trigger_one-IsSound id now _ (after_clock host fair cfg s) (fair.ticking s.out.host) refl
          (record { same_cfg = v.same_cfg; awake = v.awake }))

  confirmed-IsAwake :
      (fsm : AccountFsm) (s : Running H) → IsAwake cfg fsm → IsAwake cfg (confirm_fsm host fsm s).0
  unfolding force_confirm
  confirmed-IsAwake fsm s a = ground (arith, a, fair.ticking s.out.host)

  confirm_found-IsSound :
      (id : String) (found : Option AccountFsm) (s : Running H)
      → lookup id s.worker.fsms ≡ found
      → IsSound cfg s
      → IsSound cfg (confirm_found host id found s).1
  unfolding confirm_found
  confirm_found-IsSound id none s e v = v
  confirm_found-IsSound id (some fsm) s e v = record {
    same_cfg = v.same_cfg;
    awake =
        Each-insert (IsAwake cfg) id _ s.worker.fsms
          (confirmed-IsAwake fsm s (Each-lookup (IsAwake cfg) id s.worker.fsms v.awake e)) v.awake;
  }

  stop-IsSound : (s : Running H) → IsSound cfg s → IsSound cfg (stop s).1
  unfolding stop
  stop-IsSound s v =
      branch cfg s.worker.stopped _ _ s v (record { same_cfg = v.same_cfg; awake = v.awake })

  module _ (delayed : pos 0 ≤ℤ cfg.refresh_interval) where
    pub WorkerStep-IsSound : {s t : Running H} → WorkerStep host s t → IsSound cfg s → IsSound cfg t
    unfolding force_confirm_account
    WorkerStep-IsSound {s} (turn e) v =
        subst (IsSound cfg) (sym e) (run_once-IsSound host fair cfg delayed s v)
    WorkerStep-IsSound {s} (panicked id reason fsm same e) v =
        subst (IsSound cfg) (sym e)
          (recover_account-IsSound host fair cfg delayed id reason fsm s (same ∙ v.same_cfg) v)
    WorkerStep-IsSound {s} (checked id e) v =
        subst (IsSound cfg) (sym e) (trigger_check-IsSound id s v)
    WorkerStep-IsSound {s} (forced id e) v =
        subst (IsSound cfg) (sym e) (confirm_found-IsSound id _ s refl v)
    WorkerStep-IsSound {s} (stopping e) v = subst (IsSound cfg) (sym e) (stop-IsSound s v)

    -- In every state that the worker reaches, through any turns of the loop, failures, panics, checks
    -- and manual resets, each account that it holds has a wake after the zero time, so `soonest` never
    -- passes over it for good, and still runs under the worker's configuration.
    pub Reached-IsSound :
        (enabled : List String) {s : Running H} → Reached host cfg enabled s → IsSound cfg s
    unfolding new_worker
    Reached-IsSound enabled (started out) =
        run_start-IsSound host fair cfg delayed
          (record { worker = new_worker cfg enabled; out = out })
          (record { same_cfg = refl; awake = tt })
    Reached-IsSound enabled (stepped r st) = WorkerStep-IsSound st (Reached-IsSound enabled r)
