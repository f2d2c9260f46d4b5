-- ===== src/Sim/Agree.antt =====
-- The plugin's state machine and the simulator's on the same scripted server, and when they agree.
pub mod Idle
pub mod Confirm
pub mod Redeem
pub mod Ticks
pub mod Runs
use mathlib.Core.Path.{subst}
use cpa_plugin_codex_auto_re.Prelude.{
  ◌≡◌, refl, sym, ap, ◌∙◌, inl, inr, ℕ, ℤ, pos, String, Bool, true, false, not, ◌&&◌, ◌||◌, Option,
  none, some, List, [], ◌∷◌, select, if◌then◌else◌, str_eq, eq_iff, Bool-cases, arith, ◌+ℤ◌, ◌-ℤ◌,
  wrap64,
}
use cpa_plugin_codex_auto_re.Models.{
  Time, minutes, State, idle, armed, confirming, resetting, verifying, done, Credit, no_credit_row,
  Snapshot,
}
use cpa_plugin_codex_auto_re.Models.Credits.{available_credits_sorted}
use cpa_plugin_codex_auto_re.Client.{GoError, is_client_error, ConsumeResponse, Result, ok, err}
use cpa_plugin_codex_auto_re.Fsm.Machine.{Env, Machine, AccountFsm, trigger_time, arm_threshold}
use cpa_plugin_codex_auto_re.Fsm.Idle.{step_idle, step_armed, schedule_head}
use cpa_plugin_codex_auto_re.Fsm.Confirm.{step_confirming, head?, pick_target, confirm_target}
use cpa_plugin_codex_auto_re.Fsm.Redeem.{step_resetting, on_decision}
use cpa_plugin_codex_auto_re.Fsm.Verify.{step_verifying}
use cpa_plugin_codex_auto_re.Fsm.Tick.{step_in, step_locked, step_locked_in}
use cpa_plugin_codex_auto_re.Retry.{backoff_for_attempt, classify_consume}
use cpa_plugin_codex_auto_re.Sim.{
  Server, SimSnapshot, Consumed, SimFsm, fails, hooked, list_snapshot, usage_snapshot,
  consume_server, is_available,
}
use cpa_plugin_codex_auto_re.Sim.Steps.{sim_step, sim_step_in}
use cpa_plugin_codex_auto_re.Sim.Patrol.{
  sim_step_idle, sim_step_armed, sim_step_confirming, idle_picked, sim_confirm,
}
use cpa_plugin_codex_auto_re.Sim.Redeem.{
  sim_step_resetting, sim_step_verifying, sim_answered, sim_on_code, sim_retry,
}
use cpa_plugin_codex_auto_re.Sim.Tools.{
  pick_sim_target, find_sim_target, sim_trigger_time, sim_arm_threshold, backoff_for,
}
use cpa_plugin_codex_auto_re.Sim.Targets.{
  IsSort, list_snapshot-available, pick_sim_target_lem, find_sim_target_lem, find_sim_target-id,
  sim_target_gone_lem,
}

-- The world of the plugin's machine: the scripted server and the time.
pub record SimWorld : Type 0 where
  pub server : Server
  pub now : Time

abbrev pub as_snapshot : SimSnapshot → Time → Snapshot
as_snapshot s now = record {
  available_count = pos s.available_count;
  credits = s.credits;
  weekly_pct = s.weekly_pct;
  captured_at = now;
}

abbrev pub as_response : Consumed → ConsumeResponse × Option GoError
as_response c = (record { code = c.code; windows_reset = c.windows_reset }, c.error)

-- The error that the server is scripted to fail with is no 4xx answer.
abbrev pub IsTransientError : Option GoError → Type 0
IsTransientError none = Unit
IsTransientError (some e) = is_client_error e ≡ false

abbrev pub IsTransient : Server → Type 0
IsTransient s = IsTransientError s.fail_err

backoff_same : (n : ℤ) → backoff_for n ≡ backoff_for_attempt n
unfolding backoff_for backoff_for_attempt
backoff_same n = refl

module _ (sort : List Credit → List Credit) (hook : Option (String → Server → Server))
    (rrid : ℕ → String → String) (key : String) where
  -- The scripted server as the client of a machine.
  abbrev pub sim_env : Env SimWorld
  sim_env = record {
    now = λ w. (w.now, w);
    list_credits = λ c w. (ok (as_snapshot (list_snapshot sort w.now w.server) w.now), w);
    get_usage = λ c w. (ok (as_snapshot (usage_snapshot w.server) w.now), w);
    consume = λ c k credit w. (
      as_response (consume_server hook credit w.server).0,
      record w { server = (consume_server hook credit w.server).1 },
    );
    new_uuid = λ w. (key, w);
    logf = λ call w. w;
  }

  -- What else the two share once an attempt is pinned.
  abbrev pub AgreeOnAttempt : State → SimFsm → AccountFsm → Type 0
  AgreeOnAttempt resetting f g =
      (g.attempt.target_credit_id ≡ f.target_id)
      × (g.attempt.attempt ≡ f.attempt)
      × (g.attempt.pre_snapshot.available_count ≡ pos f.pre_snap.available_count)
      × (g.attempt.pre_snapshot.weekly_pct ≡ f.pre_snap.weekly_pct)
  AgreeOnAttempt verifying f g =
      (g.attempt.target_credit_id ≡ f.target_id)
      × (g.attempt.attempt ≡ f.attempt)
      × (g.attempt.pre_snapshot.available_count ≡ pos f.pre_snap.available_count)
      × (g.attempt.pre_snapshot.weekly_pct ≡ f.pre_snap.weekly_pct)
  AgreeOnAttempt _ f g = Unit

  -- The simulator's machine and the plugin's are in the same state, without a manual request, at the
  -- same time and on the same server, with the same intervals, target and attempt.
  pub record Agree (f : SimFsm) (m : Machine SimWorld) : Type 0 where
    pub state : m.fsm.state ≡ f.state
    pub automatic : m.fsm.manual_reset ≡ false
    pub time : m.world.now ≡ f.now
    pub server : m.world.server ≡ f.client.server
    pub refresh : m.fsm.cfg.refresh_interval ≡ f.cfg.refresh_interval
    pub lead : m.fsm.cfg.trigger_lead_time ≡ f.cfg.trigger_lead_time
    pub delay : f.cfg.post_reset_delay ≡ minutes 1
    pub target : m.fsm.scheduled_credit_id ≡ f.target_id
    pub transient : IsTransient f.client.server
    pub attempt : AgreeOnAttempt f.state f m.fsm

  -- One tick of each: the same next wake, and agreement again.
  abbrev pub InStep : Time × SimFsm → Time × Machine SimWorld → Type 0
  InStep (t, f) (t', m) = (t' ≡ t) × Agree f m
