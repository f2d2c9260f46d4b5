-- ===== src/Scenarios/Simulator.antt =====
-- The theorems on the simulator, at work on a scripted server with two credits.
use cpa_plugin_codex_auto_re.Prelude.{
  true, inl, inr, ◌||◌, str_eq, Bool-cases, ◌≡◌, refl, pos, ◌+ℤ◌, String, Option, some, List, [],
  ◌∷◌, sort_stable, sort_stable-IsSortedBy, sort_stable-All,
}
use cpa_plugin_codex_auto_re.Models.{hours, Credit, resetting}
use cpa_plugin_codex_auto_re.Models.Credits.{expires_before}
use cpa_plugin_codex_auto_re.Models.Credits.Order.{expires_before_asym, expires_before_trans}
use cpa_plugin_codex_auto_re.Client.{GoError, is_client_error}
use cpa_plugin_codex_auto_re.Fsm.Machine.{Machine, new_account_fsm}
use cpa_plugin_codex_auto_re.Fsm.Tick.{step_locked}
use cpa_plugin_codex_auto_re.Sim.{Server, hooked, FakeClient, SimFsm, default_sim_config, new_fsm}
use cpa_plugin_codex_auto_re.Sim.Steps.{sim_step}
use cpa_plugin_codex_auto_re.Sim.Engine.{max_steps, run}
use cpa_plugin_codex_auto_re.Sim.Targets.{IsSort}
use cpa_plugin_codex_auto_re.Sim.Agree.{SimWorld, IsTransient, sim_env, InStep}
use cpa_plugin_codex_auto_re.Sim.Agree.Ticks.{step_locked-InStep}
use cpa_plugin_codex_auto_re.Sim.Agree.Runs.{drive_plugin, run_final_state}
use cpa_plugin_codex_auto_re.Scenarios.Sample.{
  credit, later_credit, account, attempt, config, creds, due,
}

abbrev sorted : List Credit → List Credit
sorted = sort_stable expires_before

sorted-IsSort : IsSort sorted
sorted-IsSort = record {
  ordered = sort_stable-IsSortedBy expires_before expires_before_asym expires_before_trans;
  keeps = λ p cs h. sort_stable-All expires_before (λ c. p c ≡ true) cs h;
}

-- The first two answers are server errors; a redeemed credit disappears.
abbrev scripted : Server
scripted = record {
  credits = ("c1", credit) ∷ ("c2", later_credit) ∷ [];
  weekly_pct = pos 40;
  consume_code = "reset";
  windows_reset = pos 1;
  fail_first_n = 2;
  fail_err = some (GoError.http_status "POST" "/consume" (pos 503) "");
}

abbrev hook : Option (String → Server → Server)
hook = some (λ id s. record s { credits = ("c2", later_credit) ∷ []; weekly_pct = pos 100 })

hook-calm : (id : String) (x : Server) → IsTransient x → IsTransient (hooked hook id x)
hook-calm id x h =
    elim (Bool-cases (str_eq x.consume_code "reset" || str_eq x.consume_code "already_redeemed")) [
      | inl e ↦ rw e h
      | inr e ↦ rw e h
    ]

abbrev fake : FakeClient
fake = record {
  server = scripted;
  calls = record {
    list_calls = 0;
    usage_calls = 0;
    consumed_calls = 0;
    consumed_ids = [];
    redeem_requests = [];
  };
}

-- Both have pinned the first credit.
abbrev simulated : SimFsm
simulated = record (new_fsm default_sim_config fake (pos due)) {
  state = resetting;
  target_id = "c1";
  pre_snap = record { available_count = 2; credits = []; weekly_pct = pos 40 };
}

abbrev machine : Machine SimWorld
machine = record {
  fsm = account resetting attempt "c1";
  world = record { server = scripted; now = pos due };
}

step_locked-InStep_example :
    InStep sorted hook
      (λ n id. id)
      "key"
      (sim_step sorted hook (λ n id. id) simulated)
      (step_locked (sim_env sorted hook (λ n id. id) "key") machine)
unfolding new_fsm default_sim_config is_client_error
step_locked-InStep_example =
    step_locked-InStep sorted hook (λ n id. id) "key" sorted-IsSort hook-calm simulated machine
      (record {
        state = refl;
        automatic = refl;
        time = refl;
        server = refl;
        refresh = refl;
        lead = refl;
        delay = refl;
        target = refl;
        transient = refl;
        attempt = (refl, refl, refl, refl);
      })

run_final_state_example :
    (run sorted hook (λ n id. id) default_sim_config fake (hours 900) (hours 200)).final_state
    ≡ (drive_plugin sorted hook
        (λ n id. id)
        "key"
        max_steps
        (hours 900 +ℤ hours 200)
        (record {
          fsm = new_account_fsm "a" creds config;
          world = record { server = scripted; now = hours 900 };
        })).fsm.state
unfolding default_sim_config is_client_error
run_final_state_example =
    run_final_state sorted hook (λ n id. id) "key" sorted-IsSort hook-calm default_sim_config fake
      (hours 900) (hours 200) "a" creds config refl refl refl refl
