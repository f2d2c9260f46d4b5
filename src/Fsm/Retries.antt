-- ===== src/Fsm/Retries.antt =====
-- The retries of `stepRESETTING`: one key for all of them, and at most five.
use cpa_plugin_codex_auto_re.Prelude.{
  ℕ, zero, suc, ◌+◌, ◌≤◌, ◌≡◌, refl, ap, ◌∙◌, ◌≢◌, pos, ◌+ℤ◌, ◌≤ℤ◌, List, [], ◌∷◌, ◌++◌, arith,
  Bool, true, false, wrap64,
}
use mathlib.Core.List.{append_assoc}
use cpa_plugin_codex_auto_re.Models.{State, State-discrete, resetting}
use cpa_plugin_codex_auto_re.Retry.{backoff_for_attempt}
use cpa_plugin_codex_auto_re.Fsm.Machine.{Env, Machine}
use cpa_plugin_codex_auto_re.Fsm.Redeem.{step_resetting}
use cpa_plugin_codex_auto_re.Fsm.Tick.{step_locked, in_resetting}
use cpa_plugin_codex_auto_re.Fsm.Posts.{Post, Spy, spied, pinned, posts_of, step_locked_posts}

abbrev is_resetting : State → Bool
is_resetting resetting = true
is_resetting _ = false

-- Ticks for as long as the machine is in RESETTING.
unfoldable pub redeem_loop : {W : Type 0} → Env W → ℕ → Machine W → Machine W
redeem_loop env zero m = m
redeem_loop env (suc n) m = elim (is_resetting m.fsm.state) [
  | true ↦ redeem_loop env n (step_locked env m).1
  | false ↦ m
]

abbrev pub replicate : ℕ → Post → List Post
replicate zero p = []
replicate (suc n) p = p ∷ replicate n p

pub count_up : (a : ℕ) → a ≤ 5 → wrap64 (pos a +ℤ pos 1) ≡ pos (suc a)
unfolding wrap64 ◌+ℤ◌
count_up a h = ground arith

module _ {W : Type 0} (env : Env W) where
  pub resetting_again :
      (m : Machine W)
      → (step_resetting env m).1.fsm.state ≡ resetting
      → let f = (step_resetting env m).1.fsm in
        (pinned f ≡ pinned m.fsm)
        × (f.attempt.attempt ≡ wrap64 (m.fsm.attempt.attempt +ℤ pos 1))
        × (f.attempt.attempt ≤ℤ pos 5)
        × (f.next_wake ≡ (env.now m.world).0 +ℤ backoff_for_attempt f.attempt.attempt)
        × ((step_resetting env m).0 ≡ f.next_wake)
  unfolding step_resetting
  resetting_again m h = ground arith

  -- A tick that stays in RESETTING keeps the key and the credit, counts one attempt more, of at most
  -- five retries, and waits from now for the backoff of that attempt.
  pub retry_keeps_key :
      (m : Machine W)
      → m.fsm.state ≡ resetting
      → (step_locked env m).1.fsm.state ≡ resetting
      → let f = (step_locked env m).1.fsm in
        (pinned f ≡ pinned m.fsm)
        × (f.attempt.attempt ≡ wrap64 (m.fsm.attempt.attempt +ℤ pos 1))
        × (f.attempt.attempt ≤ℤ pos 5)
        × (f.next_wake ≡ (env.now m.world).0 +ℤ backoff_for_attempt f.attempt.attempt)
        × ((step_locked env m).0 ≡ f.next_wake)
  retry_keeps_key m s h =
      rw (in_resetting env m s) (resetting_again m (rw (in_resetting env m s) at h))

  pub redeem_loop-stop : (n : ℕ) (m : Machine W) → m.fsm.state ≢ resetting → redeem_loop env n m ≡ m
  unfolding redeem_loop
  redeem_loop-stop zero m h = refl
  redeem_loop-stop (suc n) m h = ground arith

  pub redeem_loop-suc :
      (n : ℕ) (m : Machine W)
      → m.fsm.state ≡ resetting
      → redeem_loop env (suc n) m ≡ redeem_loop env n (step_locked env m).1
  unfolding redeem_loop
  redeem_loop-suc n m h = ground arith

-- The requests sent by the loop, and its end.
abbrev pub SendsAtMost : {W : Type 0} → ℕ → Machine (Spy W) → Machine (Spy W) → Type 0
SendsAtMost n m m' =
    (m'.fsm.state ≢ resetting)
    × (k : ℕ) × (1 ≤ k)
    × (k ≤ n)
    × (m'.world.posts ≡ m.world.posts ++ replicate k (pinned m.fsm))

module _ {W : Type 0} (env : Env W) where
  abbrev next : Machine (Spy W) → Machine (Spy W)
  next m = (step_locked (spied env) m).1

  sent :
      (m : Machine (Spy W))
      → m.fsm.state ≡ resetting
      → (next m).world.posts ≡ m.world.posts ++ pinned m.fsm ∷ []
  sent m s = step_locked_posts env m ∙ ap (λ t. m.world.posts ++ posts_of t m.fsm) s

  counted :
      (m : Machine (Spy W)) (a : ℕ)
      → m.fsm.state ≡ resetting
      → m.fsm.attempt.attempt ≡ pos a
      → a ≤ 5
      → (next m).fsm.state ≡ resetting
      → (pinned (next m).fsm ≡ pinned m.fsm)
        × ((next m).fsm.attempt.attempt ≡ pos (suc a))
        × (suc a ≤ 5)
  counted m a s c h again =
      let (same, up, most, _, _) = retry_keeps_key (spied env) m s again in
      let counts = up ∙ ap (λ x. wrap64 (x +ℤ pos 1)) c ∙ count_up a h in
      (same, counts, ground (arith, most, counts))

  loop_from :
      (n a : ℕ) (m : Machine (Spy W))
      → n + a ≡ 6
      → a ≤ 5
      → m.fsm.state ≡ resetting
      → m.fsm.attempt.attempt ≡ pos a
      → SendsAtMost n m (redeem_loop (spied env) n m)
  loop_from zero a m e h s c = absurd (omega arith)
  loop_from (suc n) a m e h s c =
      rw (redeem_loop-suc (spied env) n m s) (elim (State-discrete (next m).fsm.state resetting) [
        | yes again ↦
            let (_, more, fewer) = counted m a s c h again in
            go_on again (loop_from n (suc a) (next m) (omega arith) fewer again more)
        | no left ↦
            rw (redeem_loop-stop (spied env) n (next m) left)
              (left, 1, omega arith, omega arith, sent m s)
      ])
    where
      go_on :
          (next m).fsm.state ≡ resetting
          → SendsAtMost n (next m) (redeem_loop (spied env) n (next m))
          → SendsAtMost (suc n) m (redeem_loop (spied env) n (next m))
      go_on again (left, k, _, bound, posts) = (
        left,
        suc k,
        omega arith,
        omega arith,
        posts ∙ rw (sent m s, (counted m a s c h again).0) (append_assoc m.world.posts _ _),
      )

  -- From the confirmation on, the cycle leaves RESETTING after at most six requests, the first and five
  -- retries, whatever the answers are, and all of them carry one key and one credit.
  pub retries_bounded :
      (m : Machine (Spy W))
      → m.fsm.state ≡ resetting
      → m.fsm.attempt.attempt ≡ pos 0
      → SendsAtMost 6 m (redeem_loop (spied env) 6 m)
  retries_bounded m s c = loop_from 6 0 m refl (omega arith) s c
