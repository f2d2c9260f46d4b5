-- ===== src/Fsm/Waits.antt =====
-- The waits between the requests of one reset.
use cpa_plugin_codex_auto_re.Prelude.{
  ℕ, zero, suc, ◌+◌, ◌≤◌, ◌≡◌, refl, sym, ap, ◌∙◌, pos, ◌+ℤ◌, arith, wrap64,
}
use cpa_plugin_codex_auto_re.Models.{Duration, State-discrete, resetting}
use cpa_plugin_codex_auto_re.Retry.{backoff_for_attempt}
use cpa_plugin_codex_auto_re.Fsm.Machine.{Env, Machine}
use cpa_plugin_codex_auto_re.Fsm.Tick.{step_locked}
use cpa_plugin_codex_auto_re.Fsm.Posts.{pinned}
use cpa_plugin_codex_auto_re.Fsm.Retries.{
  redeem_loop, redeem_loop-suc, redeem_loop-stop, retry_keeps_key, count_up,
}

-- The waits of the spec: 1, 2, 5, 10 and 30 minutes, in nanoseconds.
abbrev pub wait_after : ℕ → Duration
wait_after zero = pos 60000000000
wait_after (suc zero) = pos 120000000000
wait_after (suc (suc zero)) = pos 300000000000
wait_after (suc (suc (suc zero))) = pos 600000000000
wait_after _ = pos 1800000000000

backoff-wait_after : (n : ℕ) → suc n ≤ 5 → backoff_for_attempt (pos (suc n)) ≡ wait_after n
unfolding backoff_for_attempt
backoff-wait_after zero h = refl
backoff-wait_after (suc zero) h = refl
backoff-wait_after (suc (suc zero)) h = refl
backoff-wait_after (suc (suc (suc zero))) h = refl
backoff-wait_after (suc (suc (suc (suc zero)))) h = refl
backoff-wait_after (suc (suc (suc (suc (suc n))))) h = absurd (omega arith)

module _ {W : Type 0} (env : Env W) where
  -- After a failed request: the pinned request, its number, and the wake.
  abbrev pub IsWaiting : ℕ → Machine W → Machine W → Machine W → Type 0
  IsWaiting k first before after =
      (pinned after.fsm ≡ pinned first.fsm)
      × (after.fsm.attempt.attempt ≡ pos (suc k))
      × (suc k ≤ 5)
      × (after.fsm.next_wake ≡ (env.now before.world).0 +ℤ wait_after k)

  failed-IsWaiting :
      (m : Machine W) (a : ℕ)
      → m.fsm.state ≡ resetting
      → m.fsm.attempt.attempt ≡ pos a
      → a ≤ 5
      → (step_locked env m).1.fsm.state ≡ resetting
      → IsWaiting a m m (step_locked env m).1
  failed-IsWaiting m a s c h again =
      let (same, up, most, wake, _) = retry_keeps_key env m s again in
      let counts = up ∙ ap (λ x. wrap64 (x +ℤ pos 1)) c ∙ count_up a h in
      let fewer : suc a ≤ 5 = ground (arith, most, counts) in
      let wait = ap backoff_for_attempt counts ∙ backoff-wait_after a fewer in
      (same, counts, fewer, wake ∙ ap (λ d. (env.now m.world).0 +ℤ d) wait)

  waits_from :
      (n a k : ℕ) (m : Machine W)
      → n + a ≡ k
      → m.fsm.state ≡ resetting
      → m.fsm.attempt.attempt ≡ pos a
      → a ≤ 5
      → (redeem_loop env (suc n) m).fsm.state ≡ resetting
      → IsWaiting k m (redeem_loop env n m) (redeem_loop env (suc n) m)
  unfolding redeem_loop
  waits_from zero a k m e s c h again =
      let once = redeem_loop-suc env 0 m s in
      let same : a ≡ k = omega (arith, e) in
      rw (once, ← same) (failed-IsWaiting m a s c h (rw once at again))
  waits_from (suc n) a k m e s c h again =
      let next = (step_locked env m).1 in
      let later = redeem_loop-suc env (suc n) m s in
      elim (State-discrete next.fsm.state resetting) [
        | no left ↦ absurd (
            left (
              ap (λ x. x.fsm.state) (sym (later ∙ redeem_loop-stop env (suc n) next left)) ∙ again))
        | yes go ↦
            let (same, counts, fewer, _) = failed-IsWaiting m a s c h go in
            let (p, n', most, wake) =
              waits_from n (suc a) k next (omega (arith, e)) go counts fewer (rw later at again) in
            rw (later, redeem_loop-suc env n m s) (p ∙ same, n', most, wake)
      ]

  -- From the confirmation on, as long as the account is in RESETTING after one more tick, that request
  -- was the next retry of at most five, under the key and the credit of the first, and the account waits
  -- from the time of that tick: 1 minute after the first request, then 2, 5, 10 and 30 minutes.
  pub retry_schedule :
      (k : ℕ) (m : Machine W)
      → m.fsm.state ≡ resetting
      → m.fsm.attempt.attempt ≡ pos 0
      → (redeem_loop env (suc k) m).fsm.state ≡ resetting
      → IsWaiting k m (redeem_loop env k m) (redeem_loop env (suc k) m)
  retry_schedule k m s c again = waits_from k 0 k m (omega arith) s c (omega arith) again
