-- ===== src/Fsm/Settle.antt =====
-- What a settled tick leaves behind: a schedule that the worker's loop can see.
use cpa_plugin_codex_auto_re.Prelude.{
  ◌≡◌, refl, ◌≢◌, pos, ◌+ℤ◌, ◌≤ℤ◌, +ℤ_parts, arith, false, inr, ◌⊎◌,
}
use cpa_plugin_codex_auto_re.Models.{
  Time, zero_time, State, idle, armed, confirming, resetting, verifying, done, no_attempt,
}
use cpa_plugin_codex_auto_re.Retry.Laws.{backoff_for_attempt_bounds}
use cpa_plugin_codex_auto_re.Fsm.Machine.{Env, Ticking, AccountFsm, Machine}
use cpa_plugin_codex_auto_re.Fsm.Idle.{step_idle, step_armed}
use cpa_plugin_codex_auto_re.Fsm.Confirm.{step_confirming}
use cpa_plugin_codex_auto_re.Fsm.Redeem.{step_resetting}
use cpa_plugin_codex_auto_re.Fsm.Verify.{step_verifying}
use cpa_plugin_codex_auto_re.Fsm.Tick.{step_in, step_locked, step_and_settle}

module _ {W : Type 0} (env : Env W) (ticking : Ticking env) where
  -- A tick either ends the cycle or names a moment after the zero time.
  abbrev Scheduled : Time × Machine W → Type 0
  Scheduled r =
      ((pos 1 ≤ℤ r.0) × (r.1.fsm.state ≢ done)) ⊎ ((r.0 ≡ zero_time) × (r.1.fsm.state ≡ done))

  idle_wake :
      (m : Machine W)
      → pos 0 ≤ℤ m.fsm.cfg.refresh_interval
      → m.fsm.state ≡ idle
      → Scheduled (step_idle env m)
  unfolding step_idle
  idle_wake m h e =
      ground (arith, ticking m.world, +ℤ_parts (env.now m.world).0 m.fsm.cfg.refresh_interval)

  armed_wake : (m : Machine W) → Scheduled (step_armed env m)
  unfolding step_armed
  armed_wake m = grind (arith, ticking)

  confirming_wake : (m : Machine W) → Scheduled (step_confirming env m)
  unfolding step_confirming
  confirming_wake m = grind (arith, ticking)

  resetting_wake : (m : Machine W) → m.fsm.state ≡ resetting → Scheduled (step_resetting env m)
  unfolding step_resetting
  resetting_wake m e = grind (arith, ticking, +ℤ_parts, backoff_for_attempt_bounds)

  verifying_wake : (m : Machine W) → Scheduled (step_verifying env m)
  unfolding step_verifying
  verifying_wake m = ground arith

  step_in_wake :
      (s : State) (m : Machine W)
      → pos 0 ≤ℤ m.fsm.cfg.refresh_interval
      → m.fsm.state ≡ s
      → Scheduled (step_in env s m)
  unfolding step_in
  step_in_wake idle m h e = idle_wake m h e
  step_in_wake armed m h e = armed_wake m
  step_in_wake confirming m h e = confirming_wake m
  step_in_wake resetting m h e = resetting_wake m e
  step_in_wake verifying m h e = verifying_wake m
  step_in_wake done m h e = inr (refl, e)

module _ {W : Type 0} (env : Env W) where
  step_in_cfg : (s : State) (m : Machine W) → (step_in env s m).1.fsm.cfg ≡ m.fsm.cfg
  unfolding step_in step_idle step_armed step_confirming step_resetting step_verifying
  step_in_cfg idle m = ground arith
  step_in_cfg armed m = ground arith
  step_in_cfg confirming m = ground arith
  step_in_cfg resetting m = ground arith
  step_in_cfg verifying m = ground arith
  step_in_cfg done m = refl

  -- No tick changes the configuration.
  pub step_locked_cfg : (m : Machine W) → (step_locked env m).1.fsm.cfg ≡ m.fsm.cfg
  unfolding step_locked
  step_locked_cfg m = step_in_cfg m.fsm.state m

-- The account's next wake, as the worker's loop reads it: a real moment, and no finished cycle.
pub record IsScheduled (f : AccountFsm) : Type 0 where
  pub wakes : pos 1 ≤ℤ f.next_wake
  pub running : f.state ≢ done

module _ {W : Type 0} (env : Env W) (ticking : Ticking env) where
  -- After a settled tick, whatever the server answered, the account is never left finished or without
  -- a wake after the zero time, and the wake is the one returned.
  pub step_and_settle-IsScheduled :
      (m : Machine W)
      → pos 0 ≤ℤ m.fsm.cfg.refresh_interval
      → let r = step_and_settle env m in IsScheduled r.1.fsm × (r.0 ≡ r.1.fsm.next_wake)
  unfolding step_and_settle step_locked
  step_and_settle-IsScheduled m h = grind (
    arith,
    step_in_wake env ticking m.fsm.state m h refl,
    step_in_cfg env m.fsm.state m,
    ticking,
    +ℤ_parts,
  )

module _ {W : Type 0} (env : Env W) where
  pub step_and_settle_cfg : (m : Machine W) → (step_and_settle env m).1.fsm.cfg ≡ m.fsm.cfg
  unfolding step_and_settle
  step_and_settle_cfg m = ground (arith, step_locked_cfg env m)

  -- A tick that ends a cycle is settled by a return to patrolling: the attempt, the pinned credit and
  -- the manual request are forgotten, and the next patrol is one refresh interval away.
  pub step_and_settle_done :
      (m : Machine W)
      → (step_locked env m).0 ≡ zero_time
      → (step_locked env m).1.fsm.state ≡ done
      → let f = (step_and_settle env m).1.fsm in
        (f.state ≡ idle)
        × (f.attempt ≡ no_attempt)
        × (f.scheduled_credit_id ≡ "")
        × (f.manual_reset ≡ false)
        × (f.verify_due ≡ zero_time)
        × (f.next_wake ≡ (env.now (step_locked env m).1.world).0 +ℤ m.fsm.cfg.refresh_interval)
        × (f.pending_history ≡ (step_locked env m).1.fsm.pending_history)
  unfolding step_and_settle
  step_and_settle_done m z d = ground (arith, step_locked_cfg env m)
