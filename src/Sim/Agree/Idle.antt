-- ===== src/Sim/Agree/Idle.antt =====
-- A tick in IDLE and in ARMED: the simulator and the plugin.
use cpa_plugin_codex_auto_re.Prelude.{
  ◌≡◌, refl, ap, ◌∙◌, ℕ, ℤ, pos, String, Option, List, [], ◌∷◌, select, arith, ◌+ℤ◌, ◌-ℤ◌, wrap64,
}
use cpa_plugin_codex_auto_re.Models.{Time, idle, armed, Credit}
use cpa_plugin_codex_auto_re.Models.Credits.{available_credits_sorted}
use cpa_plugin_codex_auto_re.Fsm.Machine.{Machine, trigger_time, arm_threshold}
use cpa_plugin_codex_auto_re.Fsm.Idle.{step_idle, step_armed, schedule_head}
use cpa_plugin_codex_auto_re.Fsm.Confirm.{head?}
use cpa_plugin_codex_auto_re.Sim.{Server, SimSnapshot, SimFsm, list_snapshot, is_available}
use cpa_plugin_codex_auto_re.Sim.Patrol.{sim_step_idle, sim_step_armed, idle_picked}
use cpa_plugin_codex_auto_re.Sim.Tools.{sim_trigger_time, sim_arm_threshold}
use cpa_plugin_codex_auto_re.Sim.Targets.{IsSort, list_snapshot-available, pick_sim_target_lem}
use cpa_plugin_codex_auto_re.Sim.Agree.{SimWorld, sim_env, Agree, InStep}

module _ (sort : List Credit → List Credit) (hook : Option (String → Server → Server))
    (rrid : ℕ → String → String) (key : String) where
  module _ (f : SimFsm) (m : Machine SimWorld) (a : Agree sort hook rrid key f m) where
    pub armed-InStep :
        f.state ≡ armed
        → InStep sort hook rrid key
            (sim_step_armed sort hook rrid f)
            (step_armed (sim_env sort hook rrid key) m)
    unfolding sim_step_armed step_armed
    armed-InStep h = (
      a.time,
      record {
        state = refl;
        automatic = a.automatic;
        time = a.time;
        server = a.server;
        refresh = a.refresh;
        lead = a.lead;
        delay = a.delay;
        target = a.target;
        transient = a.transient;
        attempt = tt;
      },
    )

  module _ (f : SimFsm) (m : Machine SimWorld) (a : Agree sort hook rrid key f m) where
    pub same_trigger : (c : Credit) → trigger_time m.fsm c ≡ sim_trigger_time f c
    unfolding trigger_time
    same_trigger c = ap (λ (d : ℤ). c.expires_at +ℤ wrap64 (pos 0 -ℤ d)) a.lead

    same_threshold : (c : Credit) → arm_threshold m.fsm c ≡ sim_arm_threshold f c
    unfolding arm_threshold
    same_threshold c i = same_trigger c i +ℤ wrap64 (pos 0 -ℤ a.refresh i)

    idle_scheduled :
        (now : Time) (avail : List Credit)
        → f.state ≡ idle
        → now ≡ f.now
        → InStep sort hook rrid key
            (idle_picked sort hook rrid (head? avail) f)
            (schedule_head (sim_env sort hook rrid key) now avail m)
    idle_scheduled now [] s n = ground (
      arith, s, n, a.state, a.refresh, a.automatic, a.time, a.server, a.lead, a.delay, a.transient,
      a.target,
    )
    idle_scheduled now (c ∷ rest) s n = ground (
      arith,
      s,
      n,
      a.state,
      a.refresh,
      a.automatic,
      a.time,
      a.server,
      a.lead,
      a.delay,
      a.transient,
      a.target,
      same_trigger c,
      same_threshold c,
    )

  module _ (is : IsSort sort) where
    pub same_list :
        (f : SimFsm) (m : Machine SimWorld)
        → Agree sort hook rrid key f m
        → list_snapshot sort m.world.now m.world.server ≡ list_snapshot sort f.now f.client.server
    same_list f m a i = list_snapshot sort (a.time i) (a.server i)

    -- What the plugin picks from is what the simulator's client lists as available.
    pub same_available :
        (f : SimFsm) (m : Machine SimWorld)
        → Agree sort hook rrid key f m
        → available_credits_sorted
            (list_snapshot sort m.world.now m.world.server).credits
            m.world.now
          ≡ select is_available (list_snapshot sort f.now f.client.server).credits
    same_available f m a =
        list_snapshot-available sort is m.world.now m.world.server
        ∙ ap (λ (s : SimSnapshot). select is_available s.credits) (same_list f m a)

    pub idle-InStep :
        (f : SimFsm) (m : Machine SimWorld)
        → Agree sort hook rrid key f m
        → f.state ≡ idle
        → InStep sort hook rrid key
            (sim_step_idle sort hook rrid f)
            (step_idle (sim_env sort hook rrid key) m)
    unfolding sim_step_idle step_idle
    idle-InStep f m a s =
        rw
          (
            same_available f m a,
            pick_sim_target_lem (list_snapshot sort f.now f.client.server).credits,
          )
          (idle_scheduled _ _
            (record {
              state = a.state;
              automatic = a.automatic;
              time = a.time;
              server = a.server;
              refresh = a.refresh;
              lead = a.lead;
              delay = a.delay;
              target = a.target;
              transient = a.transient;
              attempt = rw s tt;
            })
            m.world.now (select is_available (list_snapshot sort f.now f.client.server).credits) s
            a.time)
