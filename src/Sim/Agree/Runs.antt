-- ===== src/Sim/Agree/Runs.antt =====
-- A whole run: the driver of sim/engine.go, and the same driver on the plugin's state machine.
use mathlib.Core.Path.{subst}
use cpa_plugin_codex_auto_re.Prelude.{
  ◌≡◌, refl, sym, ap, ℕ, zero, suc, ◌+ℤ◌, String, Bool, true, false, Option, List, if◌then◌else◌,
  ltb_ℤ, eqb_ℤ, ◌||◌, arith,
}
use cpa_plugin_codex_auto_re.Models.{
  Time, Duration, is_zero, minutes, State, resetting, verifying, Credit, CodexCredentials, Config,
}
use cpa_plugin_codex_auto_re.Fsm.Machine.{AccountFsm, Machine, is_done, new_account_fsm}
use cpa_plugin_codex_auto_re.Fsm.Tick.{step_locked}
use cpa_plugin_codex_auto_re.Sim.{SimConfig, FakeClient, Server, SimFsm, hooked, new_fsm}
use cpa_plugin_codex_auto_re.Sim.Steps.{sim_step}
use cpa_plugin_codex_auto_re.Sim.Engine.{max_steps, drive, timed_out, run}
use cpa_plugin_codex_auto_re.Sim.Targets.{IsSort}
use cpa_plugin_codex_auto_re.Sim.Agree.{SimWorld, IsTransient, sim_env, AgreeOnAttempt, Agree}
use cpa_plugin_codex_auto_re.Sim.Agree.Ticks.{step_locked-InStep}

module _ (sort : List Credit → List Credit) (hook : Option (String → Server → Server))
    (rrid : ℕ → String → String) (key : String) where
  abbrev pub Agrees : SimFsm → Machine SimWorld → Type 0
  Agrees f m = Agree sort hook rrid key f m

  abbrev pub at_time : Time → Machine SimWorld → Machine SimWorld
  at_time t m = record m { world = record (m.world) { now = t } }

  -- `Run`, with the plugin's machine in the place of the simulator's.
  unfoldable pub drive_plugin : ℕ → Time → Machine SimWorld → Machine SimWorld
  drive_plugin zero deadline m = m
  drive_plugin (suc n) deadline m =
      if is_done m.fsm.state
      then m
      else (let (next, g) = step_locked (sim_env sort hook rrid key) m in
          let again =
            drive_plugin n deadline (if ltb_ℤ g.world.now next then at_time next g else g) in
          if is_zero next
          then g
          else if ltb_ℤ next g.world.now || eqb_ℤ next g.world.now
          then again
          else if ltb_ℤ deadline next
          then g
          else again)

  attempt_kept :
      (s : State) (f f' : SimFsm) (g : AccountFsm)
      → f'.target_id ≡ f.target_id
      → f'.attempt ≡ f.attempt
      → f'.pre_snap ≡ f.pre_snap
      → AgreeOnAttempt sort hook rrid key s f g
      → AgreeOnAttempt sort hook rrid key s f' g
  attempt_kept resetting f f' g t n p h = ground (arith, t, n, p, h)
  attempt_kept verifying f f' g t n p h = ground (arith, t, n, p, h)
  attempt_kept _ f f' g t n p h = tt

  at_time-Agrees :
      (t : Time) (f : SimFsm) (m : Machine SimWorld)
      → Agrees f m
      → Agrees (record f { now = t }) (at_time t m)
  at_time-Agrees t f m a = record {
    state = a.state;
    automatic = a.automatic;
    time = refl;
    server = a.server;
    refresh = a.refresh;
    lead = a.lead;
    delay = a.delay;
    target = a.target;
    transient = a.transient;
    attempt = attempt_kept f.state f (record f { now = t }) m.fsm refl refl refl a.attempt;
  }

  timed_out-Agrees :
      (deadline : Time) (f : SimFsm) (m : Machine SimWorld)
      → Agrees f m
      → Agrees (timed_out sort hook rrid deadline f) m
  timed_out-Agrees deadline f m a = record {
    state = a.state;
    automatic = a.automatic;
    time = a.time;
    server = a.server;
    refresh = a.refresh;
    lead = a.lead;
    delay = a.delay;
    target = a.target;
    transient = a.transient;
    attempt =
        attempt_kept f.state f (timed_out sort hook rrid deadline f) m.fsm refl refl refl a.attempt;
  }

  if-Agrees :
      (b b' : Bool) (f g : SimFsm) (m k : Machine SimWorld)
      → b' ≡ b
      → Agrees f m
      → Agrees g k
      → Agrees (if b then f else g) (if b' then m else k)
  if-Agrees b true f g m k e x y = rw (← e) x
  if-Agrees b false f g m k e x y = rw (← e) y

  advanced-Agrees :
      (t t' : Time) (f : SimFsm) (m : Machine SimWorld)
      → t' ≡ t
      → Agrees f m
      → Agrees
          (if ltb_ℤ f.now t then record f { now = t } else f)
          (if ltb_ℤ m.world.now t' then at_time t' m else m)
  advanced-Agrees t t' f m e a =
      if-Agrees (ltb_ℤ f.now t) (ltb_ℤ m.world.now t') _ f _ m (λ i. ltb_ℤ (a.time i) (e i))
        (subst (λ (u : Time). Agrees (record f { now = t }) (at_time u m)) (sym e)
          (at_time-Agrees t f m a))
        a

  module _ (is : IsSort sort)
      (calm : (credit : String) (x : Server)
        → IsTransient x
        → IsTransient (hooked hook credit x)) where
    -- Where the two machines agree, they agree at the end of a run of any number of steps to any deadline.
    pub drive-Agrees :
        (n : ℕ) (deadline : Time) (f : SimFsm) (m : Machine SimWorld)
        → Agrees f m
        → Agrees (drive sort hook rrid n deadline f) (drive_plugin n deadline m)
    unfolding drive drive_plugin
    drive-Agrees zero deadline f m a = a
    drive-Agrees (suc n) deadline f m a =
        let (next, g) = sim_step sort hook rrid f in
        let (next', k) = step_locked (sim_env sort hook rrid key) m in
        let (e, b) = step_locked-InStep sort hook rrid key is calm f m a in
        let again =
          drive-Agrees n deadline (if ltb_ℤ g.now next then record g { now = next } else g)
            (if ltb_ℤ k.world.now next' then at_time next' k else k)
            (advanced-Agrees next next' g k e b) in
        if-Agrees _ _ _ _ _ _ (ap is_done a.state) a (
          if-Agrees _ _ _ _ _ _ (ap is_zero e) b (
            if-Agrees _ _ _ _ _ _ (λ i. ltb_ℤ (e i) (b.time i) || eqb_ℤ (e i) (b.time i)) again
              (if-Agrees _ _ _ _ _ _ (ap (ltb_ℤ deadline) e) (timed_out-Agrees deadline g k b)
                again)))

    -- The state in which a simulation ends is the one in which the plugin's machine ends that is started
    -- in its place, on the same server, from the same time, to the same deadline, with the intervals of
    -- the simulation and a delay of one minute before the verification. The sort puts credits in the
    -- order of their expiry, and the server is not scripted to fail by a 4xx answer, nor made so by the
    -- hook.
    pub run_final_state :
        (cfg : SimConfig) (client : FakeClient) (start : Time) (max_sim : Duration)
        (auth_id : String) (creds : CodexCredentials) (plugin_cfg : Config)
        → plugin_cfg.refresh_interval ≡ cfg.refresh_interval
        → plugin_cfg.trigger_lead_time ≡ cfg.trigger_lead_time
        → cfg.post_reset_delay ≡ minutes 1
        → IsTransient client.server
        → (run sort hook rrid cfg client start max_sim).final_state
          ≡ (drive_plugin max_steps (start +ℤ max_sim) (record {
            fsm = new_account_fsm auth_id creds plugin_cfg;
            world = record { server = client.server; now = start };
          })).fsm.state
    unfolding run new_fsm new_account_fsm
    run_final_state cfg client start max_sim auth_id creds plugin_cfg r l d t = sym (
        (drive-Agrees max_steps (start +ℤ max_sim) (new_fsm cfg client start)
          (record {
            fsm = new_account_fsm auth_id creds plugin_cfg;
            world = record { server = client.server; now = start };
          })
          (record {
            state = refl;
            automatic = refl;
            time = refl;
            server = refl;
            refresh = r;
            lead = l;
            delay = d;
            target = refl;
            transient = t;
            attempt = tt;
          })).state)
