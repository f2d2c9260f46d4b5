-- ===== src/Sim/Patrol.antt =====
-- The steps of sim/engine.go up to the confirmation: `stepIDLE`, `stepARMED` and `stepCONFIRMING`.
use cpa_plugin_codex_auto_re.Prelude.{
  ◌>>=◌, ◌>>◌, pure, ℕ, suc, pos, ◌+ℤ◌, String, not, ◌||◌, Option, none, some, List, [], ◌∷◌,
  if◌then◌else◌, str_eq, ltb_ℤ,
}
use cpa_plugin_codex_auto_re.Models.{
  Time, is_zero, armed, confirming, resetting, Credit, no_credit_row, say, Value, NextAt,
}
use cpa_plugin_codex_auto_re.Sim.{Server, SimSnapshot, EventType}
use cpa_plugin_codex_auto_re.Sim.Tools.{
  S, get, modify, push, record_state, sim_trigger_time, sim_arm_threshold, pick_sim_target,
  find_sim_target, give_up, list_now,
}

module _ (sort : List Credit → List Credit) (hook : Option (String → Server → Server))
    (rrid : ℕ → String → String) where
  abbrev pub patrol_again : String → List Value → S Time
  patrol_again format args = do
    f ← get
    let next = f.now +ℤ f.cfg.refresh_interval
    record_state (NextAt.at next) (record { format = format; args = args })
    pure next

  abbrev pub sim_arm : Credit → S Time
  sim_arm target = do
    f ← get
    let due = sim_trigger_time f target
    let wake = if not (ltb_ℤ f.now due) then f.now else due
    modify (λ f. record f { target_id = target.id; state = armed })
    record_state (NextAt.at wake) (record {
      format = "credit %s armed (T=%s)";
      args = Value.text target.id ∷ Value.clock_text due ∷ [];
    })
    pure wake

  abbrev pub idle_picked : Option Credit → S Time
  idle_picked none = patrol_again "no available credit" []
  idle_picked (some target) = do
    f ← get
    if is_zero target.expires_at
        then patrol_again "no expiring credit to schedule" []
        else if ltb_ℤ f.now (sim_arm_threshold f target)
        then patrol_again "credit %s not near window (M=%s)"
            (Value.text target.id ∷ Value.clock_text (sim_arm_threshold f target) ∷ [])
        else sim_arm target

  unfoldable pub sim_step_idle : S Time
  sim_step_idle = do
    snap ← list_now sort hook rrid
    push EventType.http_list
        (record {
          format = "available=%d weekly=%d%%";
          args = Value.int (pos snap.available_count) ∷ Value.int snap.weekly_pct ∷ [];
        })
        NextAt.nil
    idle_picked (pick_sim_target snap.credits)

  unfoldable pub sim_step_armed : S Time
  sim_step_armed = do
    modify (λ f. record f { state = confirming })
    record_state NextAt.nil (say "armed wake -> confirming")
    f ← get
    pure f.now

  -- `stepCONFIRMING` once the target is known.
  abbrev pub sim_confirm : SimSnapshot → Credit → S Time
  sim_confirm snap target = do
    f ← get
    if str_eq target.id "" || is_zero target.expires_at
        then give_up (say "target credit missing, unavailable, or no longer expiring")
            (say "confirm: invalid target, abandon")
        else if ltb_ℤ f.now (sim_trigger_time f target)
        then (do
          modify (λ f. record f { state = armed })
          record_state (NextAt.at (sim_trigger_time f target)) (say "target not yet due; re-armed")
          pure (sim_trigger_time f target))
        else (do
          modify (λ f. record f {
            pre_snap = snap;
            redeem_id = rrid (suc f.out.num_consume_post) target.id;
            attempt = pos 0;
            state = resetting;
          })
          record_state NextAt.nil (record {
            format = "confirm ok target=%s pre weekly=%d%% -> resetting";
            args = Value.text target.id ∷ Value.int snap.weekly_pct ∷ [];
          })
          pure f.now)

  unfoldable pub sim_step_confirming : S Time
  sim_step_confirming = do
    snap ← list_now sort hook rrid
    push EventType.http_list
        (record {
          format = "confirm available=%d";
          args = Value.int (pos snap.available_count) ∷ [];
        })
        NextAt.nil
    f ← get
    sim_confirm snap (
        if not (str_eq f.target_id "")
        then find_sim_target f.target_id snap.credits
        else no_credit_row)
