-- ===== src/Sim/Steps.antt =====
-- `step` of sim/engine.go.
use cpa_plugin_codex_auto_re.Prelude.{pure, ℕ, String, Option, List}
use cpa_plugin_codex_auto_re.Models.{
  Time, zero_time, State, idle, armed, confirming, resetting, verifying, done, Credit,
}
use cpa_plugin_codex_auto_re.Sim.{Server}
use cpa_plugin_codex_auto_re.Sim.Tools.{S}
use cpa_plugin_codex_auto_re.Sim.Patrol.{sim_step_idle, sim_step_armed, sim_step_confirming}
use cpa_plugin_codex_auto_re.Sim.Redeem.{sim_step_resetting, sim_step_verifying}

module _ (sort : List Credit → List Credit) (hook : Option (String → Server → Server))
    (rrid : ℕ → String → String) where
  unfoldable pub sim_step_in : State → S Time
  sim_step_in idle = sim_step_idle sort hook rrid
  sim_step_in armed = sim_step_armed sort hook rrid
  sim_step_in confirming = sim_step_confirming sort hook rrid
  sim_step_in resetting = sim_step_resetting sort hook rrid
  sim_step_in verifying = sim_step_verifying sort hook rrid
  sim_step_in done = pure zero_time

  -- One tick: the next wake, or the zero time at the end.
  unfoldable pub sim_step : S Time
  sim_step f = sim_step_in f.state f
