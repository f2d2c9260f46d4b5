-- ===== src/Sim/Agree/Ticks.antt =====
-- A tick in any state: the simulator and the plugin.
use mathlib.Core.Path.{subst}
use cpa_plugin_codex_auto_re.Prelude.{◌≡◌, refl, sym, ℕ, String, Option, List, arith}
use cpa_plugin_codex_auto_re.Models.{
  State, idle, armed, confirming, resetting, verifying, done, Credit,
}
use cpa_plugin_codex_auto_re.Fsm.Machine.{Machine}
use cpa_plugin_codex_auto_re.Fsm.Verify.{step_verifying}
use cpa_plugin_codex_auto_re.Fsm.Tick.{step_in, step_locked, step_locked_in}
use cpa_plugin_codex_auto_re.Sim.{Server, SimFsm, hooked}
use cpa_plugin_codex_auto_re.Sim.Steps.{sim_step, sim_step_in}
use cpa_plugin_codex_auto_re.Sim.Redeem.{sim_step_verifying}
use cpa_plugin_codex_auto_re.Sim.Targets.{IsSort}
use cpa_plugin_codex_auto_re.Sim.Agree.{SimWorld, IsTransient, sim_env, Agree, InStep}
use cpa_plugin_codex_auto_re.Sim.Agree.Idle.{armed-InStep, idle-InStep}
use cpa_plugin_codex_auto_re.Sim.Agree.Confirm.{confirming-InStep}
use cpa_plugin_codex_auto_re.Sim.Agree.Redeem.{resetting-InStep}

module _ (sort : List Credit → List Credit) (hook : Option (String → Server → Server))
    (rrid : ℕ → String → String) (key : String) where
  verifying-InStep :
      (f : SimFsm) (m : Machine SimWorld)
      → Agree sort hook rrid key f m
      → f.state ≡ verifying
      → InStep sort hook rrid key
          (sim_step_verifying sort hook rrid f)
          (step_verifying (sim_env sort hook rrid key) m)
  unfolding sim_step_verifying step_verifying
  verifying-InStep f m a s = ground (
    arith, s, a.state, a.refresh, a.automatic, a.time, a.server, a.lead, a.delay, a.transient,
    a.target,
  )

  module _ (is : IsSort sort)
      (calm : (credit : String) (x : Server)
        → IsTransient x
        → IsTransient (hooked hook credit x)) where
    step_in-InStep :
        (t : State) (f : SimFsm) (m : Machine SimWorld)
        → Agree sort hook rrid key f m
        → f.state ≡ t
        → InStep sort hook rrid key
            (sim_step_in sort hook rrid t f)
            (step_in (sim_env sort hook rrid key) t m)
    unfolding sim_step_in step_in
    step_in-InStep idle f m a s = idle-InStep sort hook rrid key is f m a s
    step_in-InStep armed f m a s = armed-InStep sort hook rrid key f m a s
    step_in-InStep confirming f m a s = confirming-InStep sort hook rrid key is f m a s
    step_in-InStep resetting f m a s = resetting-InStep sort hook rrid key calm f m a s
    step_in-InStep verifying f m a s = verifying-InStep f m a s
    step_in-InStep done f m a s = (refl, a)

    -- Where the plugin's machine and the simulator's agree, on one scripted server, a tick of each gives
    -- the same next wake, and they agree again: they are in the same state, with the same target and
    -- attempt, and the server has changed alike. The sort puts credits in the order of their expiry, and
    -- the server is not scripted to fail by a 4xx answer, nor made so by the hook.
    pub step_locked-InStep :
        (f : SimFsm) (m : Machine SimWorld)
        → Agree sort hook rrid key f m
        → InStep sort hook rrid key
            (sim_step sort hook rrid f)
            (step_locked (sim_env sort hook rrid key) m)
    unfolding sim_step
    step_locked-InStep f m a =
        subst (InStep sort hook rrid key (sim_step_in sort hook rrid f.state f))
          (sym (step_locked_in (sim_env sort hook rrid key) f.state m a.state))
          (step_in-InStep f.state f m a refl)
