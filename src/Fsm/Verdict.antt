-- ===== src/Fsm/Verdict.antt =====
-- The verdict of `stepVERIFYING`: what counts as a verified reset.
use cpa_plugin_codex_auto_re.Prelude.{
  ◌≡◌, refl, ◌↔◌, ◌⊎◌, inl, inr, pos, ◌+ℤ◌, ◌-ℤ◌, ◌≤ℤ◌, ◌<ℤ◌, +ℤ_parts, -ℤ_parts, eq_of_parts,
  IsInt64, wrap64_id, String, List, [], ◌∷◌, arith, true, some, Bool, ◌&&◌, eq_iff, All,
  Option-cases,
}
use cpa_plugin_codex_auto_re.Models.{verifying, Credit, Snapshot, ResetRecord}
use cpa_plugin_codex_auto_re.Client.{Result, ok}
use cpa_plugin_codex_auto_re.Fsm.Machine.{Env, Machine}
use cpa_plugin_codex_auto_re.Fsm.Verify.{target_gone, count_down, quota_up, step_verifying}
use cpa_plugin_codex_auto_re.Fsm.Tick.{step_locked, in_verifying}

-- No listed credit is the target and still available.
abbrev pub IsGone : String → List Credit → Type 0
IsGone id cs = All (λ c. ¬ ((c.id ≡ id) × (c.status ≡ "available"))) cs

target_gone_iff : (id : String) (cs : List Credit) → (target_gone id cs ≡ true) ↔ IsGone id cs
unfolding target_gone
target_gone_iff id [] = (λ h. tt, λ h. refl)
target_gone_iff id (c ∷ cs) =
    ground (arith, target_gone_iff id cs, eq_iff c.id id, eq_iff c.status "available")

all_true : (a b c : Bool) → (a && b && c) ≡ true → (a ≡ true) × (b ≡ true) × (c ≡ true)
all_true a b c h = ground arith

count_down_iff :
    (pre post : Snapshot)
    → IsInt64 (pre.available_count -ℤ pos 1)
    → (count_down pre post ≡ true) ↔ (post.available_count +ℤ pos 1 ≡ pre.available_count)
unfolding count_down
count_down_iff pre post h = rw (wrap64_id (pre.available_count -ℤ pos 1) h) (
    ground (
      arith,
      +ℤ_parts post.available_count (pos 1),
      -ℤ_parts pre.available_count (pos 1),
      eq_of_parts (post.available_count +ℤ pos 1) pre.available_count,
    ))

quota_up_iff :
    (pre usage : Snapshot)
    → (quota_up pre usage ≡ true)
      ↔ ((pos 100 ≤ℤ usage.weekly_pct) ⊎ (pre.weekly_pct <ℤ usage.weekly_pct))
unfolding quota_up
quota_up_iff pre usage = ground arith

module _ {W : Type 0} (env : Env W) (m : Machine W) where
  -- The answers that `stepVERIFYING` reads.
  abbrev pub listed : Result Snapshot
  listed = (env.list_credits m.fsm.creds m.world).0

  abbrev pub used : Result Snapshot
  used = (env.get_usage m.fsm.creds (env.list_credits m.fsm.creds m.world).1).0

  verifying_record :
      (credits usage : Snapshot)
      → listed ≡ ok credits
      → used ≡ ok usage
      → let r = step_verifying env m in
        let a = m.fsm.attempt in
        (rec : ResetRecord) × (r.1.fsm.pending_history ≡ some rec)
        × (rec.success ≡ (
            target_gone a.target_credit_id credits.credits
            && count_down a.pre_snapshot credits
            && quota_up a.pre_snapshot usage))
        × (rec.credit_id ≡ a.target_credit_id)
        × (rec.auth_id ≡ m.fsm.auth_id)
        × (rec.pre_credits ≡ a.pre_snapshot.available_count)
        × (rec.post_credits ≡ credits.available_count)
        × (rec.pre_weekly_pct ≡ a.pre_snapshot.weekly_pct)
        × (rec.post_weekly_pct ≡ usage.weekly_pct)
  unfolding step_verifying
  verifying_record credits usage l u =
      elim (Option-cases (step_verifying env m).1.fsm.pending_history) [
        | inl e ↦ absurd (ground arith)
        | inr (rec, e) ↦ (
          rec,
          e,
          ground arith,
          ground arith,
          ground arith,
          ground arith,
          ground arith,
          ground arith,
          ground arith,
        )
      ]

  -- The outcome of a verification whose two calls succeed.
  abbrev pub IsVerdict : Snapshot → Snapshot → ResetRecord → Type 0
  IsVerdict credits usage rec =
      let a = m.fsm.attempt in
      ((rec.success ≡ true) ↔ (
        IsGone a.target_credit_id credits.credits
        × (credits.available_count +ℤ pos 1 ≡ a.pre_snapshot.available_count)
        × ((pos 100 ≤ℤ usage.weekly_pct) ⊎ (a.pre_snapshot.weekly_pct <ℤ usage.weekly_pct))))
      × (rec.credit_id ≡ a.target_credit_id)
      × (rec.auth_id ≡ m.fsm.auth_id)
      × (rec.pre_credits ≡ a.pre_snapshot.available_count)
      × (rec.post_credits ≡ credits.available_count)
      × (rec.pre_weekly_pct ≡ a.pre_snapshot.weekly_pct)
      × (rec.post_weekly_pct ≡ usage.weekly_pct)

  judged :
      (credits usage : Snapshot) (rec : ResetRecord)
      → let a = m.fsm.attempt in
        IsInt64 (a.pre_snapshot.available_count -ℤ pos 1)
        → rec.success ≡ (
            target_gone a.target_credit_id credits.credits
            && count_down a.pre_snapshot credits
            && quota_up a.pre_snapshot usage)
        → (rec.success ≡ true) ↔ (
            IsGone a.target_credit_id credits.credits
            × (credits.available_count +ℤ pos 1 ≡ a.pre_snapshot.available_count)
            × ((pos 100 ≤ℤ usage.weekly_pct) ⊎ (a.pre_snapshot.weekly_pct <ℤ usage.weekly_pct)))
  judged credits usage rec h e =
      let a = m.fsm.attempt in
      let gone = target_gone_iff a.target_credit_id credits.credits in
      let down = count_down_iff a.pre_snapshot credits h in
      let up = quota_up_iff a.pre_snapshot usage in
      rw e (
        λ t. let (g, d, u) = all_true _ _ _ t in (gone.0 g, down.0 d, up.0 u),
        λ (g, d, u). rw (gone.1 g, down.1 d, up.1 u),
      )

  -- A verification that gets both answers ends the cycle and records it under the attempt's credit and
  -- counts. The record says success exactly when the server no longer lists the target as available,
  -- counts one credit less, and shows a weekly share that is full or has grown.
  pub verified_iff :
      m.fsm.state ≡ verifying
      → (credits usage : Snapshot) → listed ≡ ok credits
      → used ≡ ok usage
      → IsInt64 (m.fsm.attempt.pre_snapshot.available_count -ℤ pos 1)
      → let r = step_locked env m in
        (rec : ResetRecord) × (r.1.fsm.pending_history ≡ some rec) × IsVerdict credits usage rec
  verified_iff s credits usage l u h =
      let (rec, kept, verdict, id, auth, pre, post, before, after) =
        verifying_record credits usage l u in
      rw (in_verifying env m s)
        (rec, kept, (judged credits usage rec h verdict, id, auth, pre, post, before, after))
