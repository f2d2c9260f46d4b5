-- ===== src/Scenarios/Service.antt =====
-- The theorems of the worker, at work on a host with one account.
use cpa_plugin_codex_auto_re.Prelude.{
  ℕ, ◌+◌, ◌≡◌, refl, inl, pos, ◌+ℤ◌, ◌-ℤ◌, some, [], ◌∷◌, arith, lookup, sort_stable,
}
use cpa_plugin_codex_auto_re.Models.{zero_time, hours, State, no_attempt}
use cpa_plugin_codex_auto_re.Models.Credits.{available_credits_sorted}
use cpa_plugin_codex_auto_re.Client.{ok}
use cpa_plugin_codex_auto_re.Fsm.Machine.{Env, AccountFsm, Machine, LogCall, force_confirm}
use cpa_plugin_codex_auto_re.Fsm.Tick.{step_locked, step_and_settle}
use cpa_plugin_codex_auto_re.Fsm.Aliases.{deref, Logged, logging, settled_next_at_zero}
use cpa_plugin_codex_auto_re.Fsm.Redeem.{step_resetting}
use cpa_plugin_codex_auto_re.Retry.{classify_consume}
use cpa_plugin_codex_auto_re.Worker.State.{Running, new_worker}
use cpa_plugin_codex_auto_re.Worker.Accounts.{sub_time, maybe_resolve_wildcard, retry_missing_fsms}
use cpa_plugin_codex_auto_re.Worker.Loop.{soonest, run_once, run_start}
use cpa_plugin_codex_auto_re.Worker.Triggers.{trigger_check}
use cpa_plugin_codex_auto_re.Worker.Sound.{IsSound}
use cpa_plugin_codex_auto_re.Worker.Steps.{run_once-IsSound}
use cpa_plugin_codex_auto_re.Worker.Reach.{Reached, WorkerStep, Reached-IsSound}
use cpa_plugin_codex_auto_re.Worker.Order.{SleepsUntil, served, run_once-sleep}
use cpa_plugin_codex_auto_re.Worker.Coverage.{IsCovered, retry_missing_fsms-IsCovered}
use cpa_plugin_codex_auto_re.Worker.Manual.{
  forced, force_confirm_redeems_soonest, IsChecked, trigger_check_pulls,
}
use cpa_plugin_codex_auto_re.Scenarios.Sample.{
  credit, later_credit, usage, config, account, attempt, server, accepted_answer, due, both, host,
  host-IsFair, running, apart,
}

-- An idle account that patrols in an hour, and one that is due.
abbrev idle_account : AccountFsm
idle_account = record (account State.idle no_attempt "") { next_wake = hours 995 }

abbrev due_account : AccountFsm
due_account = account State.armed no_attempt "c1"

abbrev two : Running ℕ
two = running (("b", idle_account) ∷ ("a", due_account) ∷ [])

abbrev asleep : Running ℕ
asleep = running (("a", idle_account) ∷ [])

run_once-IsSound_example : IsSound config (run_once host two).1
run_once-IsSound_example =
    run_once-IsSound host host-IsFair config (ground arith) two
      (record { same_cfg = refl; awake = ((ground arith, refl), ((ground arith, refl), tt)) })

abbrev start : Running ℕ
start = (run_start host (record { worker = new_worker config ("a" ∷ []); out = two.out })).1

Reached-IsSound_example : IsSound config (run_once host start).1
Reached-IsSound_example =
    Reached-IsSound host host-IsFair config (ground arith) ("a" ∷ [])
      (Reached.stepped (Reached.started two.out) (WorkerStep.turn refl))

run_once-sleep_example :
    SleepsUntil
      (host.now (served host asleep).out.host).0
      (hours 1 -ℤ pos 1)
      (served host asleep).worker.fsms
unfolding run_once retry_missing_fsms maybe_resolve_wildcard soonest sub_time ◌-ℤ◌
run_once-sleep_example = run_once-sleep host asleep (hours 1 -ℤ pos 1) (apart "a" "" refl, tt) refl

retry_missing_fsms-IsCovered_example : IsCovered (retry_missing_fsms host (running [])).1.worker "a"
retry_missing_fsms-IsCovered_example = retry_missing_fsms-IsCovered host (running []) "a" (inl refl)

abbrev resetting_account : Machine ℕ
resetting_account = record { fsm = account State.resetting attempt "c1"; world = due }

abbrev good : Env ℕ
good = server (ok both) (ok (usage (pos 40))) accepted_answer

abbrev early : Machine ℕ
early = record { fsm = account State.idle no_attempt ""; world = 100 }

force_confirm_redeems_soonest_example :
    let f = (step_locked good (forced good early)).1.fsm in
    ((forced good early).fsm.next_wake ≡ pos 101)
    × (f.state ≡ State.resetting)
    × (f.attempt.target_credit_id ≡ "c1")
    × (f.attempt.attempt ≡ pos 0)
    × (f.attempt.pre_snapshot.weekly_pct ≡ pos 40)
    × (f.attempt.pre_snapshot.available_count ≡ pos 2)
unfolding force_confirm available_credits_sorted sort_stable
force_confirm_redeems_soonest_example =
    force_confirm_redeems_soonest good early both (usage (pos 40)) credit (later_credit ∷ []) refl
      refl refl (apart "c1" "" refl) refl

trigger_check_pulls_example :
    (after : AccountFsm) × (lookup "b" (trigger_check host "" two).1.worker.fsms ≡ some after)
    × IsChecked "" "b" (pos (due + 1)) idle_account after
trigger_check_pulls_example = trigger_check_pulls host "" "b" two idle_account refl

abbrev accepting : Machine (Logged ℕ)
accepting = record {
  fsm = account State.resetting attempt "c1";
  world = record { inner = due; calls = [] };
}

settled_next_at_zero_example :
    let a = step_and_settle (logging good) accepting in
    let b = step_and_settle (logging good) a.1 in
    (entry : LogCall) × (a.1.world.calls ≡ entry ∷ [])
    × (deref entry.next_at a.1.fsm ≡ some a.0)
    × (deref entry.next_at b.1.fsm ≡ some zero_time)
unfolding step_and_settle step_locked step_resetting classify_consume ◌+ℤ◌
settled_next_at_zero_example = settled_next_at_zero good accepting refl refl
