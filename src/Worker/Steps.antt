-- ===== src/Worker/Steps.antt =====
-- No step of an account strands it, failed credential loads and panics included.
use mathlib.Core.Path.{subst}
use cpa_plugin_codex_auto_re.Prelude.{
  lookup-insert_self, ◌≡◌, refl, sym, ◌∙◌, str_eq, pos, ◌≤ℤ◌, ◌+ℤ◌, +ℤ_parts, String, Option, none,
  some, [], ◌∷◌, arith, lookup, Each-insert, Each-lookup, insert-insert, ltb_ℤ,
}
use cpa_plugin_codex_auto_re.Models.{
  Time, Value, say, NextAt, credential_retry_interval, Config, CodexCredentials,
}
use cpa_plugin_codex_auto_re.Client.{Result, ok, err}
use cpa_plugin_codex_auto_re.Fsm.Machine.{AccountFsm, Machine, set_next_wake}
use cpa_plugin_codex_auto_re.Fsm.Tick.{step_and_settle}
use cpa_plugin_codex_auto_re.Fsm.Settle.{step_and_settle-IsScheduled, step_and_settle_cfg}
use cpa_plugin_codex_auto_re.Worker.State.{Out, Running, Host, lift, log, log_entry, env_of}
use cpa_plugin_codex_auto_re.Worker.Accounts.{
  maybe_resolve_wildcard, retry_missing_fsms, next_missing_retry_delay,
}
use cpa_plugin_codex_auto_re.Worker.Loop.{
  step_loaded, step_found, recover_found, run_account, run_idle, run_served, soonest, step_account,
  recover_account, run_once, run_start, put,
}
use cpa_plugin_codex_auto_re.Worker.Sound.{
  IsAwake, IsSound, IsFair, branch, after_clock, ensure_fsm-IsSound, for_each-IsSound,
  maybe_resolve_wildcard-IsSound, retry_missing_fsms-IsSound,
}

module _ {H : Type 0} (host : Host H) (fair : IsFair host) (cfg : Config)
    (delayed : pos 0 ≤ℤ cfg.refresh_interval) where
  step_loaded-IsSound :
      (id : String) (fsm : AccountFsm) (r : Result CodexCredentials) (s : Running H)
      → IsAwake cfg fsm
      → IsSound cfg s
      → IsSound cfg (step_loaded host id fsm r s).1
  unfolding step_loaded set_next_wake
  step_loaded-IsSound id fsm (err e) s a v =
      let now = (host.now s.out.host).0 in
      let awake : IsAwake cfg (set_next_wake (now +ℤ credential_retry_interval) fsm) =
        (ground (arith, fair.ticking s.out.host, +ℤ_parts now credential_retry_interval), a.1) in
      record {
        same_cfg = v.same_cfg;
        awake = Each-insert (IsAwake cfg) id _ s.worker.fsms awake v.awake;
      }
  step_loaded-IsSound id fsm (ok creds) s a v =
      let m : Machine (Out H) = record { fsm = record fsm { creds = creds }; world = s.out } in
      let r = (step_and_settle (env_of host) m).1 in
      let scheduled =
        step_and_settle-IsScheduled (env_of host) (λ o. fair.ticking o.host) m
          (ground (arith, a, delayed)) in
      let stepped : IsAwake cfg r.fsm =
        (scheduled.0.wakes, step_and_settle_cfg (env_of host) m ∙ a.1) in
      let synced : IsAwake cfg (host.state_sync id r.fsm r.world).0 = (
        ground (arith, fair.sync_wake id r.fsm r.world, stepped.0),
        fair.sync_cfg id r.fsm r.world ∙ stepped.1,
      ) in
      record {
        same_cfg = v.same_cfg;
        awake =
            Each-insert (IsAwake cfg) id _ _ synced
              (Each-insert (IsAwake cfg) id _ s.worker.fsms stepped v.awake);
      }

  step_found-IsSound :
      (id : String) (found : Option AccountFsm) (s : Running H)
      → lookup id s.worker.fsms ≡ found
      → IsSound cfg s
      → IsSound cfg (step_found host id found s).1
  unfolding step_found
  step_found-IsSound id none s e v = ensure_fsm-IsSound host fair cfg id s v
  step_found-IsSound id (some fsm) s e v =
      step_loaded-IsSound id fsm (host.load_creds id s.out.host).0 (lift (host.load_creds id) s).1
        (Each-lookup (IsAwake cfg) id s.worker.fsms v.awake e)
        (record { same_cfg = v.same_cfg; awake = v.awake })

  pub step_account-IsSound :
      (id : String) (s : Running H) → IsSound cfg s → IsSound cfg (step_account host id s).1
  unfolding step_account
  step_account-IsSound id s v = step_found-IsSound id _ s refl v

  -- A panic may leave the account's machine half way through a step, in any state and with any wake.
  recovered :
      (id : String) (fsm : AccountFsm) (s : Running H)
      → fsm.cfg ≡ cfg
      → IsSound cfg s
      → IsSound cfg (recover_found host id (some fsm) (put id fsm s).1).1
  unfolding recover_found set_next_wake
  recovered id fsm s same v =
      let now = (host.now s.out.host).0 in
      let woken = set_next_wake (now +ℤ s.worker.cfg.refresh_interval) fsm in
      let awake : IsAwake cfg woken = (
        ground (
          arith,
          v.same_cfg,
          delayed,
          fair.ticking s.out.host,
          +ℤ_parts now s.worker.cfg.refresh_interval,
        ),
        same,
      ) in
      record {
        same_cfg = v.same_cfg;
        awake =
            rw (insert-insert id fsm woken s.worker.fsms)
              (Each-insert (IsAwake cfg) id woken s.worker.fsms awake v.awake);
      }

  pub recover_account-IsSound :
      (id reason : String) (fsm : AccountFsm) (s : Running H)
      → fsm.cfg ≡ cfg
      → IsSound cfg s
      → IsSound cfg (recover_account host id reason (put id fsm s).1).1
  unfolding recover_account
  recover_account-IsSound id reason fsm s same v =
      subst (λ o. IsSound cfg (recover_found host id o (put id fsm logged).1).1)
        (sym (lookup-insert_self id fsm s.worker.fsms))
        (recovered id fsm logged same (record { same_cfg = v.same_cfg; awake = v.awake }))
    where
      logged : Running H
      logged =
          (log host
            (log_entry host "error" id none
              (record { format = "worker panic recovered: %v"; args = Value.text reason ∷ [] })
              (say "") NextAt.nil [])
            s).1

  run_account-IsSound :
      (id : String) (wake_at : Time) (s : Running H)
      → IsSound cfg s
      → IsSound cfg (run_account host id wake_at s).1
  unfolding run_account
  run_account-IsSound id wake_at s v =
      branch cfg (ltb_ℤ (host.now s.out.host).0 wake_at) _ _ (after_clock host fair cfg s)
        (record { same_cfg = v.same_cfg; awake = v.awake })
        (step_account-IsSound id (after_clock host fair cfg s)
          (record { same_cfg = v.same_cfg; awake = v.awake }))

  run_idle-IsSound : (s : Running H) → IsSound cfg s → IsSound cfg (run_idle host s).1
  unfolding run_idle next_missing_retry_delay
  run_idle-IsSound s v = ground (arith, v.same_cfg, v.awake)

  run_served-IsSound :
      (next : String × Time) (s : Running H)
      → IsSound cfg s
      → IsSound cfg (run_served host next s).1
  unfolding run_served
  run_served-IsSound (id, wake_at) s v =
      branch cfg (str_eq id "") (run_idle host) (run_account host id wake_at) s
        (run_idle-IsSound s v) (run_account-IsSound id wake_at s v)

  -- A turn of the loop, whatever the host answers, strands no account.
  pub run_once-IsSound : (s : Running H) → IsSound cfg s → IsSound cfg (run_once host s).1
  unfolding run_once
  run_once-IsSound s v =
      let served = (retry_missing_fsms host (maybe_resolve_wildcard host s).1).1 in
      branch cfg s.worker.stopped _ _ s v (
        run_served-IsSound (soonest served.worker) served (
          retry_missing_fsms-IsSound host fair cfg (maybe_resolve_wildcard host s).1
            (maybe_resolve_wildcard-IsSound host fair cfg s v)))

  pub run_start-IsSound : (s : Running H) → IsSound cfg s → IsSound cfg (run_start host s).1
  unfolding run_start
  run_start-IsSound s v = for_each-IsSound host fair cfg s.worker.resolved_enabled s v
