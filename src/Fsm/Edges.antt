-- ===== src/Fsm/Edges.antt =====
-- The transition diagram of the state machine.
use cpa_plugin_codex_auto_re.Prelude.{◌≡◌, refl, sym, ◌∙◌, ◌⊎◌, inl, inr, arith}
use mathlib.Core.Path.{subst}
use cpa_plugin_codex_auto_re.Models.{State, idle, armed, confirming, resetting, verifying, done}
use cpa_plugin_codex_auto_re.Fsm.Machine.{Env, Machine}
use cpa_plugin_codex_auto_re.Fsm.Idle.{step_idle, step_armed}
use cpa_plugin_codex_auto_re.Fsm.Confirm.{step_confirming}
use cpa_plugin_codex_auto_re.Fsm.Redeem.{step_resetting}
use cpa_plugin_codex_auto_re.Fsm.Verify.{step_verifying}
use cpa_plugin_codex_auto_re.Fsm.Tick.{step_in, step_locked}

-- The arrows of the diagram.
pub data Edge : State → State → Type 0 where
  patrol : Edge idle idle
  arm : Edge idle armed
  wake_up : Edge armed confirming
  arm_again : Edge confirming armed
  redeem : Edge confirming resetting
  give_up : Edge confirming done
  again : Edge resetting resetting
  accepted : Edge resetting verifying
  stopped : Edge resetting done
  verified : Edge verifying done
  rest : Edge done done

ruleset edges =
    (patrol, arm, wake_up, arm_again, redeem, give_up, again, accepted, stopped, verified, rest)

module _ {W : Type 0} (env : Env W) (m : Machine W) where
  idle_state :
      ((step_idle env m).1.fsm.state ≡ m.fsm.state) ⊎ ((step_idle env m).1.fsm.state ≡ armed)
  unfolding step_idle
  idle_state = ground arith

  armed_state : (step_armed env m).1.fsm.state ≡ confirming
  unfolding step_armed
  armed_state = ground arith

  confirming_state :
      ((step_confirming env m).1.fsm.state ≡ armed)
      ⊎ ((step_confirming env m).1.fsm.state ≡ resetting)
      ⊎ ((step_confirming env m).1.fsm.state ≡ done)
  unfolding step_confirming
  confirming_state = ground arith

  resetting_state :
      ((step_resetting env m).1.fsm.state ≡ m.fsm.state)
      ⊎ ((step_resetting env m).1.fsm.state ≡ verifying)
      ⊎ ((step_resetting env m).1.fsm.state ≡ done)
  unfolding step_resetting
  resetting_state = ground arith

  verifying_state : (step_verifying env m).1.fsm.state ≡ done
  unfolding step_verifying
  verifying_state = ground arith

land : {s t u : State} → Edge s t → u ≡ t → Edge s u
land {s} e p = subst (Edge s) (sym p) e

module _ {W : Type 0} (env : Env W) where
  step_in-Edge :
      (s : State) (m : Machine W) → m.fsm.state ≡ s → Edge s (step_in env s m).1.fsm.state
  unfolding step_in
  step_in-Edge idle m h = elim (idle_state env m) [
    | inl e ↦ land patrol (e ∙ h)
    | inr e ↦ land arm e
  ]
  step_in-Edge armed m h = land wake_up (armed_state env m)
  step_in-Edge confirming m h = elim (confirming_state env m) [
    | inl e ↦ land arm_again e
    | inr (inl e) ↦ land redeem e
    | inr (inr e) ↦ land give_up e
  ]
  step_in-Edge resetting m h = elim (resetting_state env m) [
    | inl e ↦ land again (e ∙ h)
    | inr (inl e) ↦ land accepted e
    | inr (inr e) ↦ land stopped e
  ]
  step_in-Edge verifying m h = land verified (verifying_state env m)
  step_in-Edge done m h = land rest h

  -- Whatever the server, the clock and the uuid package answer, a tick follows an arrow of the diagram.
  pub step_locked-Edge : (m : Machine W) → Edge m.fsm.state (step_locked env m).1.fsm.state
  unfolding step_locked
  step_locked-Edge m = step_in-Edge m.fsm.state m refl
