-- ===== src/Sim/Engine.antt =====
-- The driver of sim/engine.go: `Run`, with its own bound of 200 steps as fuel.
use cpa_plugin_codex_auto_re.Prelude.{
  ℕ, zero, suc, ◌+ℤ◌, Option, List, true, ◌||◌, if◌then◌else◌, ltb_ℤ, eqb_ℤ,
}
use cpa_plugin_codex_auto_re.Models.{Time, Duration, is_zero, Credit, Value}
use cpa_plugin_codex_auto_re.Fsm.Machine.{is_done}
use cpa_plugin_codex_auto_re.Sim.{
  SimConfig, Server, FakeClient, Outcome, SimFsm, state_name, new_fsm,
}
use cpa_plugin_codex_auto_re.Prelude.{String, [], ◌∷◌}
use cpa_plugin_codex_auto_re.Sim.Steps.{sim_step}

abbrev pub max_steps : ℕ
max_steps = 200

module _ (sort : List Credit → List Credit) (hook : Option (String → Server → Server))
    (rrid : ℕ → String → String) where
  -- The simulation ends at its deadline.
  abbrev pub timed_out : Time → SimFsm → SimFsm
  timed_out deadline f = record f {
    out = record (f.out) {
      gave_up = true;
      give_up_reason = record {
        format = "simulation deadline reached at %s (state=%s)";
        args = Value.clock_text deadline ∷ Value.text (state_name f.state) ∷ [];
      };
    };
  }

  -- The loop.
  unfoldable pub drive : ℕ → Time → SimFsm → SimFsm
  drive zero deadline f = f
  drive (suc n) deadline f =
      if is_done f.state
      then f
      else (let (next, g) = sim_step sort hook rrid f in
          let again = drive n deadline (if ltb_ℤ g.now next then record g { now = next } else g) in
          if is_zero next
          then g
          else if ltb_ℤ next g.now || eqb_ℤ next g.now
          then again
          else if ltb_ℤ deadline next
          then timed_out deadline g
          else again)

  unfoldable pub run : SimConfig → FakeClient → Time → Duration → Outcome
  unfolding drive new_fsm
  run cfg client start max_sim =
      let f = drive max_steps (start +ℤ max_sim) (new_fsm cfg client start) in
      record (f.out) { final_state = f.state }
