-- ===== src/Fsm/Tick.antt =====
-- The tick of resetbank.go: `stepLocked` and `StepAndSettle`.
use cpa_plugin_codex_auto_re.Prelude.{◌>>=◌, ◌>>◌, pure, ◌≡◌, ap, ◌&&◌, ◌+ℤ◌, if◌then◌else◌}
use cpa_plugin_codex_auto_re.Models.{
  Time, zero_time, is_zero, State, idle, armed, confirming, resetting, verifying, done,
}
use cpa_plugin_codex_auto_re.Fsm.Machine.{
  Env, Machine, M, get, modify, clock, is_done, reset_locked,
}
use cpa_plugin_codex_auto_re.Fsm.Idle.{step_idle, step_armed}
use cpa_plugin_codex_auto_re.Fsm.Confirm.{step_confirming}
use cpa_plugin_codex_auto_re.Fsm.Redeem.{step_resetting}
use cpa_plugin_codex_auto_re.Fsm.Verify.{step_verifying}

module _ {W : Type 0} (env : Env W) where
  unfoldable pub step_in : State → M W Time
  step_in idle = step_idle env
  step_in armed = step_armed env
  step_in confirming = step_confirming env
  step_in resetting = step_resetting env
  step_in verifying = step_verifying env
  step_in done = pure zero_time

  unfoldable pub step_locked : M W Time
  unfolding step_in
  step_locked = do f ← get; step_in f.state

  -- A finished cycle goes back to patrolling; any other wake is kept.
  settle : Time → M W Time
  unfolding reset_locked
  settle wake = do
    f ← get
    if is_zero wake && is_done f.state
        then (do
          modify reset_locked
          now ← clock env
          let next = now +ℤ f.cfg.refresh_interval
          modify (λ g. record g { next_wake = next })
          pure next)
        else (do modify (λ g. record g { next_wake = wake }); pure wake)

  unfoldable pub step_and_settle : M W Time
  unfolding settle
  step_and_settle = do wake ← step_locked; settle wake

  -- The tick in each state.
  pub step_locked_in : (s : State) (m : Machine W) → m.fsm.state ≡ s → step_locked m ≡ step_in s m
  unfolding step_locked
  step_locked_in s m e = ap (λ t. step_in t m) e

  pub in_confirming :
      (m : Machine W) → m.fsm.state ≡ confirming → step_locked m ≡ step_confirming env m
  unfolding step_in
  in_confirming m e = step_locked_in confirming m e

  pub in_resetting :
      (m : Machine W) → m.fsm.state ≡ resetting → step_locked m ≡ step_resetting env m
  unfolding step_in
  in_resetting m e = step_locked_in resetting m e

  pub in_verifying :
      (m : Machine W) → m.fsm.state ≡ verifying → step_locked m ≡ step_verifying env m
  unfolding step_in
  in_verifying m e = step_locked_in verifying m e

  pub in_idle : (m : Machine W) → m.fsm.state ≡ idle → step_locked m ≡ step_idle env m
  unfolding step_in
  in_idle m e = step_locked_in idle m e
