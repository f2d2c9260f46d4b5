-- ===== src/Scenarios/Accounts.antt =====
-- The theorems of the state machine, at work on one account.
use cpa_plugin_codex_auto_re.Prelude.{
  ℕ, ◌+◌, pos, ◌+ℤ◌, ◌-ℤ◌, ◌≤ℤ◌, ◌<ℤ◌, wrap64, sort_stable, ◌≡◌, refl, some, [], arith,
}
use cpa_plugin_codex_auto_re.Models.{
  State, idle, confirming, resetting, verifying, no_attempt, ResetRecord, Snapshot, Credit,
}
use cpa_plugin_codex_auto_re.Client.{ok, is_client_error}
use cpa_plugin_codex_auto_re.Models.Credits.{available_credits_sorted}
use cpa_plugin_codex_auto_re.Fsm.Machine.{Env, Machine, trigger_time}
use cpa_plugin_codex_auto_re.Fsm.Confirm.{pick_target, step_confirming}
use cpa_plugin_codex_auto_re.Fsm.Redeem.{step_resetting}
use cpa_plugin_codex_auto_re.Fsm.Tick.{step_locked, step_and_settle}
use cpa_plugin_codex_auto_re.Fsm.Edges.{Edge, step_locked-Edge}
use cpa_plugin_codex_auto_re.Fsm.Trigger.{read_list, IsRedeemable, redeem_in_window}
use cpa_plugin_codex_auto_re.Fsm.Posts.{Spy, spied}
use cpa_plugin_codex_auto_re.Fsm.Retries.{redeem_loop, SendsAtMost, retries_bounded}
use cpa_plugin_codex_auto_re.Fsm.Waits.{IsWaiting, retry_schedule}
use cpa_plugin_codex_auto_re.Fsm.Settle.{IsScheduled, step_and_settle-IsScheduled}
use cpa_plugin_codex_auto_re.Fsm.Patrol.{patrol_never_late}
use cpa_plugin_codex_auto_re.Fsm.Verdict.{IsVerdict, verified_iff}
use cpa_plugin_codex_auto_re.Retry.{classify_consume}
use cpa_plugin_codex_auto_re.Scenarios.Sample.{
  credit, usage, account, attempt, server, accepted_answer, failed_answer, due, both, one_left,
}

abbrev good : Env ℕ
good = server (ok both) (ok (usage (pos 40))) accepted_answer

abbrev broken : Env ℕ
broken = server (ok both) (ok (usage (pos 40))) failed_answer

abbrev after : Env ℕ
after = server (ok one_left) (ok (usage (pos 100))) accepted_answer

abbrev at_confirm : Machine ℕ
at_confirm = record { fsm = account confirming no_attempt "c1"; world = due }

abbrev at_reset : Machine ℕ
at_reset = record { fsm = account resetting attempt "c1"; world = due }

abbrev spied_reset : Machine (Spy ℕ)
spied_reset = record {
  fsm = account resetting attempt "c1";
  world = record { inner = due; posts = [] };
}

abbrev at_verify : Machine ℕ
at_verify = record { fsm = account verifying attempt "c1"; world = due }

abbrev patrolling : Machine ℕ
patrolling = record { fsm = account idle no_attempt ""; world = due }

redeem_in_window_example :
    (snap : Snapshot) × (c : Credit) × (read_list good at_confirm ≡ ok snap)
    × IsRedeemable good at_confirm (step_locked good at_confirm).1.fsm.attempt snap c
unfolding step_locked step_confirming pick_target available_credits_sorted sort_stable trigger_time
    ◌+ℤ◌ wrap64 ◌-ℤ◌
redeem_in_window_example = redeem_in_window good at_confirm refl refl

step_locked-Edge_example : Edge confirming (step_locked good at_confirm).1.fsm.state
step_locked-Edge_example = step_locked-Edge good at_confirm

retry_schedule_example :
    IsWaiting broken 1 at_reset (redeem_loop broken 1 at_reset) (redeem_loop broken 2 at_reset)
unfolding redeem_loop step_locked step_resetting classify_consume is_client_error wrap64 ◌+ℤ◌
retry_schedule_example = retry_schedule broken 1 at_reset refl refl refl

retries_bounded_example : SendsAtMost 6 spied_reset (redeem_loop (spied broken) 6 spied_reset)
retries_bounded_example = retries_bounded broken spied_reset refl refl

step_and_settle-IsScheduled_example :
    let r = step_and_settle after at_verify in IsScheduled r.1.fsm × (r.0 ≡ r.1.fsm.next_wake)
step_and_settle-IsScheduled_example =
    step_and_settle-IsScheduled after (λ w. ground arith) at_verify (ground arith)

patrol_never_late_example :
    let r = step_locked good patrolling in
    let t = trigger_time patrolling.fsm credit in
    let next = pos (due + 1) +ℤ patrolling.fsm.cfg.refresh_interval in
    (next <ℤ t → (r.1.fsm.state ≡ idle) × (r.0 ≡ next))
    × (t ≤ℤ next
        → (r.1.fsm.state ≡ State.armed)
          × (r.1.fsm.scheduled_credit_id ≡ "c1")
          × (pos (due + 1) <ℤ t → r.0 ≡ t)
          × (t ≤ℤ pos (due + 1) → r.0 ≡ pos (due + 1)))
unfolding available_credits_sorted sort_stable
patrol_never_late_example =
    patrol_never_late good patrolling refl (ground arith, ground arith) both credit _ refl refl
      (λ e. ground arith)

verified_iff_example :
    (rec : ResetRecord) × ((step_locked after at_verify).1.fsm.pending_history ≡ some rec)
    × IsVerdict after at_verify one_left (usage (pos 100)) rec
unfolding ◌-ℤ◌
verified_iff_example =
    verified_iff after at_verify refl one_left (usage (pos 100)) refl refl (ground arith)
