-- ===== src/Worker/Loop.antt =====
-- The loop of worker.go: `soonest`, `stepAccountSafe` and `Run`.
-- A turn of the loop ends in a `Turn`. The clock jumps that tests ask for (`testAccelerate`) are left out.
use cpa_plugin_codex_auto_re.Prelude.{
  ◌>>=◌, ◌>>◌, pure, for_each, pos, String, not, ◌&&◌, ◌||◌, Option, none, some, List, [], ◌∷◌,
  if◌then◌else◌, str_eq, lookup, insert, ltb_ℤ, leb_ℤ, ◌+ℤ◌,
}
use cpa_plugin_codex_auto_re.Models.{
  Time, Duration, zero_time, is_zero, credential_retry_interval, say, Value, NextAt,
  CodexCredentials,
}
use cpa_plugin_codex_auto_re.Client.{Result, ok, err}
use cpa_plugin_codex_auto_re.Fsm.Machine.{AccountFsm, set_next_wake}
use cpa_plugin_codex_auto_re.Fsm.Tick.{step_and_settle}
use cpa_plugin_codex_auto_re.Worker.State.{
  Worker, Host, R, get, lift, clock, log, log_entry, env_of,
}
use cpa_plugin_codex_auto_re.Worker.Accounts.{
  ensure_fsm, maybe_resolve_wildcard, retry_missing_fsms, next_missing_retry_delay, sub_time,
}

-- The loop of `soonest`, with the best account so far; the zero time is no wake.
unfoldable pub soonest_from : String → Time → List (String × AccountFsm) → String × Time
soonest_from best_id best [] = (best_id, best)
soonest_from best_id best ((id, fsm) ∷ rest) =
    let better = not (is_zero fsm.next_wake) && (str_eq best_id "" || ltb_ℤ fsm.next_wake best) in
    soonest_from (if better then id else best_id) (if better then fsm.next_wake else best) rest

unfoldable pub soonest : Worker → String × Time
unfolding soonest_from
soonest w = soonest_from "" zero_time w.fsms

-- How a turn of the loop ends.
pub data Turn : Type 0 where
  returned : Turn
  again : Turn
  -- `sleepOrStop(d)`, which ends early at a stop or at a nudge.
  sleep : Duration → Turn

-- The machine behind the pointer that the map holds for `id`.
abbrev pub put : {H : Type 0} → String → AccountFsm → R H (Unit {0})
put id fsm s = (tt, record s { worker = record (s.worker) { fsms = insert id fsm s.worker.fsms } })

module _ {H : Type 0} (host : Host H) where
  -- `fsm.StepAndSettle()`, on the worker's log and host.
  abbrev pub tick : AccountFsm → R H AccountFsm
  tick fsm s =
      let r = (step_and_settle (env_of host) (record { fsm = fsm; world = s.out })).1 in
      (r.fsm, record s { out = r.world })

  abbrev pub sync : String → AccountFsm → R H AccountFsm
  sync id fsm s =
      ((host.state_sync id fsm s.out).0, record s { out = (host.state_sync id fsm s.out).1 })

  -- The step of an account that has a state machine, by what the credential loader returns.
  unfoldable pub step_loaded : String → AccountFsm → Result CodexCredentials → R H (Unit {0})
  step_loaded id fsm (err e) = do
    now ← clock host
    let next = now +ℤ credential_retry_interval
    log host (
        log_entry host "error" id (some fsm.state)
          (record { format = "credential load failed: %s"; args = Value.err_text e ∷ [] })
          (say "retry credential load") (NextAt.at next) [])
    put id (set_next_wake next fsm)
  step_loaded id fsm (ok creds) = do
    stepped ← tick (record fsm { creds = creds })
    put id stepped
    synced ← sync id stepped
    put id synced

  unfoldable pub step_found : String → Option AccountFsm → R H (Unit {0})
  unfolding step_loaded
  step_found id none = ensure_fsm host id
  step_found id (some fsm) = do creds ← lift (host.load_creds id); step_loaded id fsm creds

  unfoldable pub step_account : String → R H (Unit {0})
  unfolding step_found
  step_account id = do w ← get; step_found id (lookup id w.fsms)

  -- The deferred function of `stepAccountSafe`, after a panic that says `reason`.
  unfoldable pub recover_found : String → Option AccountFsm → R H (Unit {0})
  recover_found id none = pure tt
  recover_found id (some fsm) = do
    now ← clock host
    w ← get
    put id (set_next_wake (now +ℤ w.cfg.refresh_interval) fsm)

  unfoldable pub recover_account : String → String → R H (Unit {0})
  unfolding recover_found
  recover_account id reason = do
    log host (
        log_entry host "error" id none
          (record { format = "worker panic recovered: %v"; args = Value.text reason ∷ [] }) (say "")
          NextAt.nil [])
    w ← get
    recover_found id (lookup id w.fsms)

  -- The turn once an account is due, or not yet.
  unfoldable pub run_account : String → Time → R H Turn
  run_account id wake = do
    now ← clock host
    if ltb_ℤ now wake then pure (sleep (sub_time wake now)) else (do step_account id; pure again)

  unfoldable pub run_idle : R H Turn
  run_idle = do
    delay ← next_missing_retry_delay host
    pure (if leb_ℤ delay (pos 0) then again else sleep delay)

  -- The turn once the served accounts are known.
  unfoldable pub run_served : String × Time → R H Turn
  run_served (id, wake) = if str_eq id "" then run_idle else run_account id wake

  unfoldable pub run_once : R H Turn
  unfolding run_served run_account run_idle
  run_once = do
    v ← get
    if v.stopped then pure returned else (do
      maybe_resolve_wildcard host
      retry_missing_fsms host
      w ← get
      run_served (soonest w))

  -- What `Run` does before its loop.
  unfoldable pub run_start : R H (Unit {0})
  unfolding for_each
  run_start = do w ← get; for_each w.resolved_enabled (ensure_fsm host)
