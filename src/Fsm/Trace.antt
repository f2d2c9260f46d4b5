-- ===== src/Fsm/Trace.antt =====
-- The calls that a tick makes of its client, read off a world that records what each call sends.
-- What a call sends is a parameter; the world's answers are those of an environment that records nothing.
use mathlib.Core.List.{append-nil}
use cpa_plugin_codex_auto_re.Prelude.{◌≡◌, sym, ◌∙◌, ◌⊎◌, inl, String, List, [], ◌++◌, arith}
use cpa_plugin_codex_auto_re.Models.{
  State, idle, armed, confirming, resetting, verifying, done, CodexCredentials,
}
use cpa_plugin_codex_auto_re.Fsm.Machine.{Env, AccountFsm, Machine}
use cpa_plugin_codex_auto_re.Fsm.Idle.{step_idle, step_armed}
use cpa_plugin_codex_auto_re.Fsm.Confirm.{step_confirming}
use cpa_plugin_codex_auto_re.Fsm.Redeem.{step_resetting}
use cpa_plugin_codex_auto_re.Fsm.Verify.{step_verifying}
use cpa_plugin_codex_auto_re.Fsm.Tick.{step_in, step_locked}

pub record Traced (W A : Type 0) : Type 0 where
  pub inner : W
  pub sent : List A

module _ {W A : Type 0} (env : Env W) (by_list by_usage : CodexCredentials → List A)
    (by_consume : CodexCredentials → String → String → List A) where
  abbrev pub traced : Env (Traced W A)
  traced = record {
    now = λ s. ((env.now s.inner).0, record s { inner = (env.now s.inner).1 });
    list_credits = λ c s. (
      (env.list_credits c s.inner).0,
      record { inner = (env.list_credits c s.inner).1; sent = s.sent ++ by_list c },
    );
    get_usage = λ c s. (
      (env.get_usage c s.inner).0,
      record { inner = (env.get_usage c s.inner).1; sent = s.sent ++ by_usage c },
    );
    consume = λ c key credit s. (
      (env.consume c key credit s.inner).0,
      record {
        inner = (env.consume c key credit s.inner).1;
        sent = s.sent ++ by_consume c key credit;
      },
    );
    new_uuid = λ s. ((env.new_uuid s.inner).0, record s { inner = (env.new_uuid s.inner).1 });
    logf = λ call s. record s { inner = env.logf call s.inner };
  }

  -- What a tick sends in any case.
  abbrev pub first_sent : State → AccountFsm → List A
  first_sent idle f = by_list f.creds
  first_sent confirming f = by_list f.creds
  first_sent resetting f = by_consume f.creds f.attempt.redeem_request_id f.attempt.target_credit_id
  first_sent verifying f = by_list f.creds
  first_sent _ f = []

  -- What it sends after that, if it goes on to read the usage.
  abbrev pub then_sent : State → AccountFsm → List A
  then_sent idle f = by_usage f.creds
  then_sent confirming f = by_usage f.creds
  then_sent verifying f = by_usage f.creds
  then_sent _ f = []

  abbrev pub Sent : State → Machine (Traced W A) → Machine (Traced W A) → Type 0
  Sent s m m' =
      (m'.world.sent ≡ m.world.sent ++ first_sent s m.fsm)
      ⊎ (m'.world.sent ≡ (m.world.sent ++ first_sent s m.fsm) ++ then_sent s m.fsm)

  idle-Sent : (m : Machine (Traced W A)) → Sent idle m (step_idle traced m).1
  unfolding step_idle
  idle-Sent m = ground arith

  armed_sent : (m : Machine (Traced W A)) → (step_armed traced m).1.world.sent ≡ m.world.sent
  unfolding step_armed
  armed_sent m = ground arith

  confirming-Sent : (m : Machine (Traced W A)) → Sent confirming m (step_confirming traced m).1
  unfolding step_confirming
  confirming-Sent m = ground arith

  resetting_sent :
      (m : Machine (Traced W A))
      → (step_resetting traced m).1.world.sent ≡ m.world.sent ++ first_sent resetting m.fsm
  unfolding step_resetting
  resetting_sent m = ground arith

  verifying-Sent : (m : Machine (Traced W A)) → Sent verifying m (step_verifying traced m).1
  unfolding step_verifying
  verifying-Sent m = ground arith

  step_in-Sent : (s : State) (m : Machine (Traced W A)) → Sent s m (step_in traced s m).1
  unfolding step_in
  step_in-Sent idle m = idle-Sent m
  step_in-Sent armed m = inl (armed_sent m ∙ sym (append-nil _))
  step_in-Sent confirming m = confirming-Sent m
  step_in-Sent resetting m = inl (resetting_sent m)
  step_in-Sent verifying m = verifying-Sent m
  step_in-Sent done m = inl (sym (append-nil _))

  pub step_locked-Sent : (m : Machine (Traced W A)) → Sent m.fsm.state m (step_locked traced m).1
  unfolding step_locked
  step_locked-Sent m = step_in-Sent m.fsm.state m
