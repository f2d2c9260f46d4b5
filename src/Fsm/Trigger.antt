-- ===== src/Fsm/Trigger.antt =====
-- When a credit may be redeemed: the trigger window of the automatic flow.
use mathlib.Core.List.{Mem}
use cpa_plugin_codex_auto_re.Prelude.{
  ◌≡◌, refl, ◌≢◌, pos, String, false, List, [], ◌∷◌, ◌≤ℤ◌, arith, eq_iff, All, str_eq, Bool-cases,
  inl, inr, ltb_ℤ,
}
use cpa_plugin_codex_auto_re.Models.{
  Time, zero_time, is_zero, confirming, resetting, Credit, Snapshot, ResetAttempt,
}
use cpa_plugin_codex_auto_re.Models.Credits.{available_credits_sorted}
use cpa_plugin_codex_auto_re.Models.Credits.Order.{IsUsable, available_credits_sorted-Mem}
use cpa_plugin_codex_auto_re.Client.{Result, ok, Result-cases}
use cpa_plugin_codex_auto_re.Fsm.Machine.{Env, AccountFsm, Machine, trigger_time}
use cpa_plugin_codex_auto_re.Fsm.Confirm.{or_empty, head?, find_by_id, pick_target, step_confirming}
use cpa_plugin_codex_auto_re.Fsm.Tick.{in_confirming, step_locked}

find_by_id-All :
    (P : Credit → Type 0) (id : String) (cs : List Credit)
    → All P cs
    → (or_empty (find_by_id id cs)).id ≢ ""
    → P (or_empty (find_by_id id cs)) × ((or_empty (find_by_id id cs)).id ≡ id)
find_by_id-All P id [] h e = absurd (e refl)
find_by_id-All P id (d ∷ ds) h e = elim (Bool-cases (str_eq d.id id)) [
  | inl t ↦ rw t (h.0, (eq_iff d.id id).0 t)
  | inr t ↦ rw t (find_by_id-All P id ds h.1 (rw t at e))
]

head?-All :
    (P : Credit → Type 0) (cs : List Credit)
    → All P cs
    → (or_empty (head? cs)).id ≢ ""
    → P (or_empty (head? cs))
head?-All P [] h e = absurd (e refl)
head?-All P (c ∷ cs) h e = h.0

pick_target-All :
    (P : Credit → Type 0) (f : AccountFsm) (cs : List Credit)
    → All P cs
    → (pick_target f cs).id ≢ ""
    → P (pick_target f cs)
      × (f.manual_reset ≡ false → (pick_target f cs).id ≡ f.scheduled_credit_id)
unfolding pick_target
pick_target-All P f cs h e = elim (Bool-cases f.manual_reset) [
  | inl t ↦ rw t (head?-All P cs h (rw t at e), λ n. cc)
  | inr t ↦ elim (Bool-cases (str_eq f.scheduled_credit_id "")) [
    | inl u ↦ absurd ((rw (t, u) at e) refl)
    | inr u ↦
        let found = find_by_id-All P f.scheduled_credit_id cs h (rw (t, u) at e) in
        rw (t, u) (found.0, λ n. found.1)
  ]
]

module _ {W : Type 0} (env : Env W) (m : Machine W) where
  -- The clock and the list that `stepCONFIRMING` reads.
  abbrev pub read_now : Time
  read_now = (env.now m.world).0

  abbrev pub read_list : Result Snapshot
  read_list = (env.list_credits m.fsm.creds (env.now m.world).1).0

  abbrev chosen : Snapshot → Credit
  chosen snap = pick_target m.fsm (available_credits_sorted snap.credits read_now)

  confirming_redeems :
      (snap : Snapshot)
      → read_list ≡ ok snap
      → (step_confirming env m).1.fsm.state ≡ resetting
      → let a = (step_confirming env m).1.fsm.attempt in
        (str_eq (chosen snap).id "" ≡ false)
        × (m.fsm.manual_reset ≡ false
            → (is_zero (chosen snap).expires_at ≡ false)
              × (ltb_ℤ read_now (trigger_time m.fsm (chosen snap)) ≡ false))
        × (a.target_credit_id ≡ (chosen snap).id)
        × (a.attempt ≡ pos 0)
        × (a.started_at ≡ read_now)
  unfolding step_confirming
  confirming_redeems snap l h = ground arith

  -- The credit that an attempt redeems, as `stepCONFIRMING` saw it.
  abbrev pub IsRedeemable : ResetAttempt → Snapshot → Credit → Type 0
  IsRedeemable a snap c =
      Mem c snap.credits
      × IsUsable read_now c
      × (a.target_credit_id ≡ c.id)
      × (c.id ≢ "")
      × (m.fsm.manual_reset ≡ false
          → (c.id ≡ m.fsm.scheduled_credit_id)
            × (c.expires_at ≢ zero_time)
            × (trigger_time m.fsm c ≤ℤ read_now))

  redeems_listed :
      (snap : Snapshot)
      → read_list ≡ ok snap
      → (step_confirming env m).1.fsm.state ≡ resetting
      → IsRedeemable (step_confirming env m).1.fsm.attempt snap (chosen snap)
  redeems_listed snap l r =
      let (named, due, same, _, _) = confirming_redeems snap l r in
      let proper : (chosen snap).id ≢ "" = λ e. ground (arith, eq_iff (chosen snap).id "") in
      let ((listed, usable), pinned) =
        pick_target-All _ m.fsm _ (available_credits_sorted-Mem snap.credits read_now) proper in
      (
        listed,
        usable,
        same,
        proper,
        λ auto. (pinned auto, λ e. ground (arith, due auto), ground (arith, due auto)),
      )

  confirming_needs_list :
      (step_confirming env m).1.fsm.state ≡ resetting → (snap : Snapshot) × (read_list ≡ ok snap)
  unfolding step_confirming
  confirming_needs_list r = elim (Result-cases read_list) [
    | inl found ↦ found
    | inr (e, l) ↦ absurd (ground arith)
  ]

  -- When the automatic flow sends a reset, it redeems the very credit that it armed for, which the
  -- server lists as available, not expired and expiring, and whose trigger time E - L has come. A
  -- manual reset redeems a listed, available and unexpired credit.
  pub redeem_in_window :
      m.fsm.state ≡ confirming
      → (step_locked env m).1.fsm.state ≡ resetting
      → (snap : Snapshot) × (c : Credit) × (read_list ≡ ok snap)
        × IsRedeemable (step_locked env m).1.fsm.attempt snap c
  redeem_in_window s r =
      let r' = rw (in_confirming env m s) at r in
      let (snap, l) = confirming_needs_list r' in
      (snap, chosen snap, l, rw (in_confirming env m s) (redeems_listed snap l r'))
