-- ===== src/Sim/Agree/Confirm.antt =====
-- A tick in CONFIRMING: the simulator and the plugin.
use mathlib.Core.Path.{subst}
use cpa_plugin_codex_auto_re.Prelude.{
  ◌≡◌, refl, sym, ap, ◌∙◌, inl, inr, ℕ, String, false, not, Option, List, select, if◌then◌else◌,
  str_eq, Bool-cases, arith,
}
use cpa_plugin_codex_auto_re.Models.{Time, confirming, Credit, no_credit_row}
use cpa_plugin_codex_auto_re.Fsm.Machine.{Machine}
use cpa_plugin_codex_auto_re.Fsm.Confirm.{step_confirming, pick_target, confirm_target}
use cpa_plugin_codex_auto_re.Sim.{
  Server, SimSnapshot, SimFsm, list_snapshot, usage_snapshot, is_available,
}
use cpa_plugin_codex_auto_re.Sim.Patrol.{sim_step_confirming, sim_confirm}
use cpa_plugin_codex_auto_re.Sim.Tools.{find_sim_target}
use cpa_plugin_codex_auto_re.Sim.Targets.{IsSort, find_sim_target_lem, find_sim_target-id}
use cpa_plugin_codex_auto_re.Sim.Agree.{SimWorld, as_snapshot, sim_env, Agree, InStep}
use cpa_plugin_codex_auto_re.Sim.Agree.Idle.{same_trigger, same_list, same_available}

module _ (sort : List Credit → List Credit) (hook : Option (String → Server → Server))
    (rrid : ℕ → String → String) (key : String) where
  module _ (is : IsSort sort) where
    -- The pinned credit is the one that both find.
    same_pick :
        (f : SimFsm) (m : Machine SimWorld)
        → Agree sort hook rrid key f m
        → let cs = (list_snapshot sort f.now f.client.server).credits in
          pick_target m.fsm (select is_available cs)
          ≡ (if not (str_eq f.target_id "") then find_sim_target f.target_id cs else no_credit_row)
    unfolding pick_target
    same_pick f m a =
        let cs = (list_snapshot sort f.now f.client.server).credits in
        rw (a.automatic, a.target, find_sim_target_lem f.target_id cs) refl

    confirm-InStep :
        (f : SimFsm) (m : Machine SimWorld) (now : Time) (snap : SimSnapshot) (target : Credit)
        → Agree sort hook rrid key f m
        → f.state ≡ confirming
        → now ≡ f.now
        → (str_eq target.id "" ≡ false → target.id ≡ f.target_id)
        → (snap.weekly_pct ≡ f.client.server.weekly_pct)
        → InStep sort hook rrid key
            (sim_confirm sort hook rrid snap target f)
            (confirm_target (sim_env sort hook rrid key) now (as_snapshot snap now) target m)
    unfolding usage_snapshot step_confirming
    confirm-InStep f m now snap target a s n id w = ground (
      arith,
      s,
      n,
      w,
      id,
      a.state,
      a.refresh,
      a.automatic,
      a.time,
      a.server,
      a.lead,
      a.delay,
      a.transient,
      a.target,
      same_trigger sort hook rrid key f m a target,
    )

    weekly :
        (f : SimFsm)
        → (list_snapshot sort f.now f.client.server).weekly_pct ≡ f.client.server.weekly_pct
    unfolding list_snapshot
    weekly f = refl

    picked : SimFsm → Credit
    picked f =
        let cs = (list_snapshot sort f.now f.client.server).credits in
        if not (str_eq f.target_id "") then find_sim_target f.target_id cs else no_credit_row

    picked_id : (f : SimFsm) → str_eq (picked f).id "" ≡ false → (picked f).id ≡ f.target_id
    unfolding picked
    picked_id f h =
        let cs = (list_snapshot sort f.now f.client.server).credits in
        elim (Bool-cases (str_eq f.target_id "")) [
          | inl e ↦ absurd (cc (rw e at h))
          | inr e ↦ rw e (find_sim_target-id f.target_id cs (rw e at h))
        ]

    pub confirming-InStep :
        (f : SimFsm) (m : Machine SimWorld)
        → Agree sort hook rrid key f m
        → f.state ≡ confirming
        → InStep sort hook rrid key
            (sim_step_confirming sort hook rrid f)
            (step_confirming (sim_env sort hook rrid key) m)
    unfolding sim_step_confirming step_confirming picked
    confirming-InStep f m a s =
        let snap = list_snapshot sort f.now f.client.server in
        let pick =
          ap (pick_target m.fsm) (same_available sort hook rrid key is f m a) ∙ same_pick f m a in
        let at : step_confirming (sim_env sort hook rrid key) m
            ≡ confirm_target (sim_env sort hook rrid key) m.world.now (as_snapshot snap m.world.now)
                (picked f) m =
          λ i.
            confirm_target (sim_env sort hook rrid key) m.world.now
              (as_snapshot (same_list sort hook rrid key is f m a i) m.world.now) (pick i) m in
        subst (InStep sort hook rrid key (sim_step_confirming sort hook rrid f)) (sym at) (
          confirm-InStep _ m m.world.now snap (picked f)
            (record {
              state = a.state;
              automatic = a.automatic;
              time = a.time;
              server = a.server;
              refresh = a.refresh;
              lead = a.lead;
              delay = a.delay;
              target = a.target;
              transient = a.transient;
              attempt = rw s tt;
            })
            s a.time (picked_id f) (weekly f))
