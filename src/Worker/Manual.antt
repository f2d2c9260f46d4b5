-- ===== src/Worker/Manual.antt =====
-- The requests of an administrator: `TriggerCheck` and `ForceConfirm`.
use cpa_plugin_codex_auto_re.Prelude.{
  ◌⊎◌, ◌≡◌, refl, sym, ◌≢◌, ◌∙◌, ap, inl, inr, pos, String, Option, some, none, List, [], ◌∷◌,
  arith, lookup, lookup-insert, Bool-cases, true, false, ◌||◌, if◌then◌else◌, str_eq, eq_iff,
}
use cpa_plugin_codex_auto_re.Models.{Time, idle, confirming, resetting, Credit, Snapshot}
use cpa_plugin_codex_auto_re.Models.Credits.{available_credits_sorted}
use cpa_plugin_codex_auto_re.Client.{ok}
use cpa_plugin_codex_auto_re.Fsm.Machine.{
  Env, AccountFsm, Machine, is_submitted, set_next_wake, force_confirm,
}
use cpa_plugin_codex_auto_re.Fsm.Confirm.{pick_target, step_confirming}
use cpa_plugin_codex_auto_re.Fsm.Tick.{step_locked, in_confirming}
use cpa_plugin_codex_auto_re.Fsm.Trigger.{read_now, read_list}
use cpa_plugin_codex_auto_re.Worker.State.{Host, Running, clock, wake}
use cpa_plugin_codex_auto_re.Worker.Triggers.{pull, pull_all, trigger_one, trigger_check}

module _ {W : Type 0} (env : Env W) (m : Machine W) where
  -- The account after a manual request.
  abbrev pub forced : Machine W
  forced = (force_confirm env m).1

  -- A manual request leaves an account alone whose reset is already submitted, so that no second key
  -- can be made for it.
  pub force_confirm_submitted : is_submitted m.fsm.state ≡ true → forced ≡ m
  unfolding force_confirm
  force_confirm_submitted h = ground arith

  forced_state :
      is_submitted m.fsm.state ≡ false
      → (forced.fsm.state ≡ confirming)
        × (forced.fsm.manual_reset ≡ true)
        × (forced.fsm.next_wake ≡ (env.now m.world).0)
        × (forced.fsm.creds ≡ m.fsm.creds)
  unfolding force_confirm
  forced_state h = ground arith

manual_confirms :
    {W : Type 0} (env : Env W) (m : Machine W) (snap usage : Snapshot) (c : Credit)
    (rest : List Credit)
    → m.fsm.manual_reset ≡ true
    → read_list env m ≡ ok snap
    → available_credits_sorted snap.credits (read_now env m) ≡ c ∷ rest
    → c.id ≢ ""
    → (env.get_usage m.fsm.creds (env.list_credits m.fsm.creds (env.now m.world).1).1).0 ≡ ok usage
    → let f = (step_confirming env m).1.fsm in
      (f.state ≡ resetting)
      × (f.attempt.target_credit_id ≡ c.id)
      × (f.attempt.attempt ≡ pos 0)
      × (f.attempt.pre_snapshot.weekly_pct ≡ usage.weekly_pct)
      × (f.attempt.pre_snapshot.available_count ≡ snap.available_count)
unfolding step_confirming pick_target
manual_confirms env m snap usage c rest a l s n u = ground (arith, a, l, s, n, u, eq_iff c.id "")

module _ {W : Type 0} (env : Env W) (m : Machine W) where
  -- A manual request to an account whose reset is not submitted wakes it at once, and its next tick, if
  -- both calls succeed, sends the reset of the usable credit that expires first, whatever its trigger
  -- time, with the counts just read.
  pub force_confirm_redeems_soonest :
      (snap usage : Snapshot) (c : Credit) (rest : List Credit)
      → let m' = forced env m in
        is_submitted m.fsm.state ≡ false
        → read_list env m' ≡ ok snap
        → available_credits_sorted snap.credits (read_now env m') ≡ c ∷ rest
        → c.id ≢ ""
        → (env.get_usage m'.fsm.creds (env.list_credits m'.fsm.creds (env.now m'.world).1).1).0
          ≡ ok usage
        → let f = (step_locked env m').1.fsm in
          (m'.fsm.next_wake ≡ (env.now m.world).0)
          × (f.state ≡ resetting)
          × (f.attempt.target_credit_id ≡ c.id)
          × (f.attempt.attempt ≡ pos 0)
          × (f.attempt.pre_snapshot.weekly_pct ≡ usage.weekly_pct)
          × (f.attempt.pre_snapshot.available_count ≡ snap.available_count)
  force_confirm_redeems_soonest snap usage c rest h l s n u =
      let (at, manual, wakes, _) = forced_state env m h in
      let (a, b, d, e, f) = manual_confirms env (forced env m) snap usage c rest manual l s n u in
      rw (in_confirming env (forced env m) at) (wakes, a, b, d, e, f)

lookup-pull_all :
    (now : Time) (j : String) (fs : List (String × AccountFsm)) (fsm : AccountFsm)
    → lookup j fs ≡ some fsm
    → lookup j (pull_all now fs) ≡ some (pull now fsm)
lookup-pull_all now j [] fsm e = absurd (ground arith)
lookup-pull_all now j ((k, g) ∷ fs) fsm e = elim (Bool-cases (str_eq k j)) [
  | inl t ↦ rw t (
      ap (λ o. elim o as (λ _. Option AccountFsm) [ none ↦ none | some f ↦ some (pull now f) ])
        (rw t at e))
  | inr t ↦ rw t (lookup-pull_all now j fs fsm (rw t at e))
]

-- What a check for `id` may do to the account `j`: wake it, if it is idle and meant, or nothing.
abbrev pub IsChecked : String → String → Time → AccountFsm → AccountFsm → Type 0
IsChecked id j now fsm after =
    ((fsm.state ≡ idle) × ((id ≡ "") ⊎ (id ≡ j)) × (after ≡ record fsm { next_wake = now }))
    ⊎ (((fsm.state ≢ idle) ⊎ ((id ≢ "") × (id ≢ j))) × (after ≡ fsm))

pulled-IsChecked :
    (id j : String) (now : Time) (fsm : AccountFsm)
    → IsChecked id j now fsm (if str_eq id "" || str_eq id j then pull now fsm else fsm)
unfolding set_next_wake
pulled-IsChecked id j now fsm = ground (arith, eq_iff id "", eq_iff id j)

module _ {H : Type 0} (host : Host H) where
  trigger_one-lookup :
      (id : String) (now : Time) (found : Option AccountFsm) (s : Running H) (j : String)
      (fsm : AccountFsm)
      → lookup id s.worker.fsms ≡ found
      → lookup j s.worker.fsms ≡ some fsm
      → lookup j (trigger_one host id now found s).1.worker.fsms
        ≡ some (if str_eq id j then pull now fsm else fsm)
  unfolding trigger_one wake
  trigger_one-lookup id now none s j fsm h e = ground (arith, h, e, eq_iff id j)
  trigger_one-lookup id now (some g) s j fsm h e = elim (Bool-cases (str_eq id j)) [
    | inl t ↦
        let same : id ≡ j = (eq_iff id j).0 t in
        let found : some g ≡ some fsm = sym h ∙ ap (λ k. lookup k s.worker.fsms) same ∙ e in
        lookup-insert id j (pull now g) s.worker.fsms ∙ ground (arith, t, found)
    | inr t ↦ lookup-insert id j (pull now g) s.worker.fsms ∙ ground (arith, t, e)
  ]

  trigger_check-lookup :
      (id j : String) (s : Running H) (fsm : AccountFsm)
      → lookup j s.worker.fsms ≡ some fsm
      → lookup j (trigger_check host id s).1.worker.fsms
        ≡ some (if str_eq id "" || str_eq id j then pull (host.now s.out.host).0 fsm else fsm)
  unfolding trigger_check wake
  trigger_check-lookup id j s fsm e =
      let now = (host.now s.out.host).0 in
      elim (Bool-cases (str_eq id "")) [
        | inl t ↦ rw t (lookup-pull_all now j s.worker.fsms fsm e)
        | inr t ↦
            rw t (trigger_one-lookup id now (lookup id s.worker.fsms) (clock host s).1 j fsm refl e)
      ]

  -- After a check, each account is found under its name: with its wake at the time of the check, and all
  -- else as it was, if it is idle and the check is for it or for all accounts; and else as it was.
  pub trigger_check_pulls :
      (id j : String) (s : Running H) (fsm : AccountFsm)
      → lookup j s.worker.fsms ≡ some fsm
      → (after : AccountFsm) × (lookup j (trigger_check host id s).1.worker.fsms ≡ some after)
        × IsChecked id j (host.now s.out.host).0 fsm after
  trigger_check_pulls id j s fsm e =
      (_, trigger_check-lookup id j s fsm e, pulled-IsChecked id j _ fsm)
