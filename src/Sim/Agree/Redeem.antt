-- ===== src/Sim/Agree/Redeem.antt =====
-- A tick in RESETTING: the simulator and the plugin.
use mathlib.Core.Path.{subst}
use cpa_plugin_codex_auto_re.Prelude.{
  ◌≡◌, refl, sym, inl, inr, ℕ, ℤ, pos, String, false, Option, none, some, List, Bool-cases, arith,
  ◌+ℤ◌, wrap64,
}
use cpa_plugin_codex_auto_re.Models.{Time, State, resetting, Credit}
use cpa_plugin_codex_auto_re.Client.{GoError, is_client_error}
use cpa_plugin_codex_auto_re.Fsm.Machine.{Machine}
use cpa_plugin_codex_auto_re.Fsm.Redeem.{step_resetting, on_decision}
use cpa_plugin_codex_auto_re.Retry.{classify_consume}
use cpa_plugin_codex_auto_re.Sim.{Server, Consumed, SimFsm, fails, hooked, consume_server}
use cpa_plugin_codex_auto_re.Sim.Redeem.{sim_step_resetting, sim_answered, sim_on_code, sim_retry}
use cpa_plugin_codex_auto_re.Sim.Agree.{
  SimWorld, as_response, IsTransientError, IsTransient, backoff_same, sim_env, AgreeOnAttempt,
  Agree, InStep,
}

module _ (sort : List Credit → List Credit) (hook : Option (String → Server → Server))
    (rrid : ℕ → String → String) (key : String) where
  module _ (f : SimFsm) (m : Machine SimWorld) (a : Agree sort hook rrid key f m)
      (s : f.state ≡ resetting) (now : Time) (n : now ≡ f.now) where
    pinned : AgreeOnAttempt sort hook rrid key resetting f m.fsm
    pinned = subst (λ (t : State). AgreeOnAttempt sort hook rrid key t f m.fsm) s a.attempt

    accepted-InStep :
        (code : String) (windows : ℤ)
        → InStep sort hook rrid key (sim_on_code sort hook rrid code f) (
            on_decision
              (sim_env sort hook rrid key)
              now
              (record { code = code; windows_reset = windows })
              none
              (classify_consume (record { code = code; windows_reset = windows }) none)
              m)
    unfolding classify_consume
    accepted-InStep code windows = ground (
      arith, s, n, a.state, a.refresh, a.automatic, a.time, a.server, a.lead, a.delay, a.transient,
      a.target, pinned.0, pinned.1, pinned.2, pinned.3,
    )

    retried-InStep :
        (code : String) (windows : ℤ) (e : GoError)
        → is_client_error e ≡ false
        → InStep sort hook rrid key (sim_retry sort hook rrid e f) (
            on_decision
              (sim_env sort hook rrid key)
              now
              (record { code = code; windows_reset = windows })
              (some e)
              (classify_consume (record { code = code; windows_reset = windows }) (some e))
              m)
    unfolding classify_consume
    retried-InStep code windows e h = ground (
      arith,
      h,
      backoff_same (wrap64 (f.attempt +ℤ pos 1)),
      s,
      n,
      a.state,
      a.refresh,
      a.automatic,
      a.time,
      a.server,
      a.lead,
      a.delay,
      a.transient,
      a.target,
      pinned.0,
      pinned.1,
      pinned.2,
      pinned.3,
    )

  -- The hook leaves the scripted error alone, or at least no 4xx answer in its place.
  module _
      (calm : (credit : String) (x : Server)
        → IsTransient x
        → IsTransient (hooked hook credit x)) where
    consume_server-IsTransient :
        (credit : String) (x : Server)
        → IsTransient x
        → IsTransientError (consume_server hook credit x).0.error
          × IsTransient (consume_server hook credit x).1
    unfolding consume_server
    consume_server-IsTransient credit x t = elim (Bool-cases (fails x)) [
      | inl e ↦ rw e (t, t)
      | inr e ↦ rw e (tt, calm credit x t)
    ]

    answered-InStep :
        (f : SimFsm) (m : Machine SimWorld) (now : Time) (answer : Consumed) (o : Option GoError)
        → Agree sort hook rrid key f m
        → f.state ≡ resetting
        → now ≡ f.now
        → answer.error ≡ o
        → IsTransientError o
        → InStep sort hook rrid key (sim_answered sort hook rrid answer o f) (
            on_decision
              (sim_env sort hook rrid key)
              now
              (as_response answer).0
              o
              (classify_consume (as_response answer).0 o)
              m)
    answered-InStep f m now answer none a s n e t =
        accepted-InStep f m a s now n answer.code answer.windows_reset
    answered-InStep f m now answer (some x) a s n e t =
        retried-InStep f m a s now n answer.code answer.windows_reset x t

    pub resetting-InStep :
        (f : SimFsm) (m : Machine SimWorld)
        → Agree sort hook rrid key f m
        → f.state ≡ resetting
        → InStep sort hook rrid key
            (sim_step_resetting sort hook rrid f)
            (step_resetting (sim_env sort hook rrid key) m)
    unfolding sim_step_resetting step_resetting
    resetting-InStep f m a s =
        let att = pinned f m a s m.world.now a.time in
        let answer = consume_server hook f.target_id f.client.server in
        let same : consume_server hook m.fsm.attempt.target_credit_id m.world.server ≡ answer =
          λ i. consume_server hook (att.0 i) (a.server i) in
        let after : Machine SimWorld = record m {
          world = record (m.world) { server = answer.1 };
        } in
        let at : step_resetting (sim_env sort hook rrid key) m
            ≡ on_decision (sim_env sort hook rrid key) m.world.now (as_response answer.0).0
                answer.0.error (classify_consume (as_response answer.0).0 answer.0.error) after =
          λ i.
            on_decision (sim_env sort hook rrid key) m.world.now (as_response (same i).0).0
              (same i).0.error (classify_consume (as_response (same i).0).0 (same i).0.error)
              (record m { world = record (m.world) { server = (same i).1 } }) in
        let calm_after = consume_server-IsTransient f.target_id f.client.server a.transient in
        subst (InStep sort hook rrid key (sim_step_resetting sort hook rrid f)) (sym at) (
          answered-InStep _ after m.world.now answer.0 answer.0.error
            (record {
              state = a.state;
              automatic = a.automatic;
              time = a.time;
              server = refl;
              refresh = a.refresh;
              lead = a.lead;
              delay = a.delay;
              target = a.target;
              transient = calm_after.1;
              attempt = rw s att;
            })
            s a.time refl calm_after.0)
