-- ===== src/Fsm/Patrol.antt =====
-- The patrols of IDLE: no account sleeps past the moment at which its soonest credit must be redeemed.
use cpa_plugin_codex_auto_re.Prelude.{
  ◌+◌, ◌≡◌, ◌≢◌, ◌∙◌, ℤ, pos, pos_part, neg_part, ◌+ℤ◌, ◌-ℤ◌, ◌≤ℤ◌, ◌<ℤ◌, +ℤ_parts, -ℤ_parts,
  eqb_ℤ_iff, IsInt64, wrap64, wrap64_id, List, ◌∷◌, arith,
}
use cpa_plugin_codex_auto_re.Models.{Time, zero_time, idle, armed, Credit, Snapshot}
use cpa_plugin_codex_auto_re.Models.Credits.{available_credits_sorted}
use cpa_plugin_codex_auto_re.Client.{ok}
use cpa_plugin_codex_auto_re.Fsm.Machine.{Env, Machine, trigger_time, arm_threshold}
use cpa_plugin_codex_auto_re.Fsm.Idle.{step_idle}
use cpa_plugin_codex_auto_re.Fsm.Tick.{step_locked, in_idle}

-- The durations that `normalizeConfig` lets through, and zero.
abbrev pub IsDelay : ℤ → Type 0
IsDelay d = (pos 0 ≤ℤ d) × IsInt64 d

negate : (d : ℤ) → IsDelay d → wrap64 (pos 0 -ℤ d) ≡ pos 0 -ℤ d
negate d h = wrap64_id (pos 0 -ℤ d) (negated d h)
  where
    negated : (e : ℤ) → IsDelay e → IsInt64 (pos 0 -ℤ e)
    negated e k = ground (arith, -ℤ_parts (pos 0) e)

module _ {W : Type 0} (env : Env W) (m : Machine W) where
  abbrev now : Time
  now = (env.now m.world).0

  -- How `stepIDLE` ends once it knows the soonest credit.
  idle_schedules :
      (snap : Snapshot) (c : Credit) (rest : List Credit)
      → (env.list_credits m.fsm.creds (env.now m.world).1).0 ≡ ok snap
      → available_credits_sorted snap.credits now ≡ c ∷ rest
      → c.expires_at ≢ zero_time
      → let r = step_idle env m in
        (now <ℤ arm_threshold m.fsm c
          → (r.1.fsm.state ≡ m.fsm.state) × (r.0 ≡ now +ℤ m.fsm.cfg.refresh_interval))
        × (arm_threshold m.fsm c ≤ℤ now
            → (r.1.fsm.state ≡ armed)
              × (r.1.fsm.scheduled_credit_id ≡ c.id)
              × (now <ℤ trigger_time m.fsm c → r.0 ≡ trigger_time m.fsm c)
              × (trigger_time m.fsm c ≤ℤ now → r.0 ≡ now))
  unfolding step_idle arm_threshold trigger_time
  idle_schedules snap c rest l s e = ground (arith, e, eqb_ℤ_iff c.expires_at zero_time)

  threshold_parts :
      (c : Credit)
      → IsDelay m.fsm.cfg.refresh_interval
      → pos_part (arm_threshold m.fsm c)
          + pos_part m.fsm.cfg.refresh_interval
          + neg_part (trigger_time m.fsm c)
        ≡ neg_part (arm_threshold m.fsm c)
          + neg_part m.fsm.cfg.refresh_interval
          + pos_part (trigger_time m.fsm c)
  unfolding arm_threshold
  threshold_parts c h = rw (negate m.fsm.cfg.refresh_interval h) (
      omega (
        arith,
        +ℤ_parts (trigger_time m.fsm c) (pos 0 -ℤ m.fsm.cfg.refresh_interval),
        -ℤ_parts (pos 0) m.fsm.cfg.refresh_interval,
      ))

  -- A patrol that finds an expiring credit sleeps one refresh interval only if the next patrol still
  -- comes before the credit's trigger time. Otherwise it arms the account for that credit, to wake at
  -- the trigger time, or at once if that has passed.
  pub patrol_never_late :
      m.fsm.state ≡ idle
      → IsDelay m.fsm.cfg.refresh_interval
      → (snap : Snapshot) (c : Credit) (rest : List Credit)
      → (env.list_credits m.fsm.creds (env.now m.world).1).0 ≡ ok snap
      → available_credits_sorted snap.credits now ≡ c ∷ rest
      → c.expires_at ≢ zero_time
      → let r = step_locked env m in
        let due = trigger_time m.fsm c in
        let next = now +ℤ m.fsm.cfg.refresh_interval in
        (next <ℤ due → (r.1.fsm.state ≡ idle) × (r.0 ≡ next))
        × (due ≤ℤ next
            → (r.1.fsm.state ≡ armed)
              × (r.1.fsm.scheduled_credit_id ≡ c.id)
              × (now <ℤ due → r.0 ≡ due)
              × (due ≤ℤ now → r.0 ≡ now))
  patrol_never_late s d snap c rest l e x =
      let (early, late) = idle_schedules snap c rest l e x in
      let parts = threshold_parts c d in
      let sum = +ℤ_parts now m.fsm.cfg.refresh_interval in
      rw (in_idle env m s)
        (λ h. let (same, wake) = early (omega arith) in (same ∙ s, wake), λ h. late (omega arith))
