-- ===== src/Fsm/Ledger.antt =====
-- What a cycle spends on a server that keeps the promise of its idempotency key.
use cpa_plugin_codex_auto_re.Prelude.{
  ℕ, zero, suc, ◌≡◌, refl, sym, ap, ◌∙◌, ◌⊎◌, inl, inr, String, List, [], ◌∷◌, ◌++◌, arith, Bool,
  true, false, if◌then◌else◌, str_eq, eq_iff, Option, Bool-cases, ltb_ℤ, pos, length, wrap64, ◌+ℤ◌,
}
use cpa_plugin_codex_auto_re.Models.{
  Time, State-discrete, reset_retry_delays, resetting, CodexCredentials,
}
use cpa_plugin_codex_auto_re.Client.{GoError, ConsumeResponse}
use cpa_plugin_codex_auto_re.Retry.{RetryDecision, success, stop, retry}
use cpa_plugin_codex_auto_re.Fsm.Machine.{Env, Machine, LogCall}
use cpa_plugin_codex_auto_re.Fsm.Redeem.{on_decision, step_resetting}
use cpa_plugin_codex_auto_re.Fsm.Tick.{step_locked, in_resetting}
use cpa_plugin_codex_auto_re.Fsm.Posts.{Post, pinned}
use cpa_plugin_codex_auto_re.Fsm.Retries.{
  redeem_loop, redeem_loop-suc, redeem_loop-stop, retry_keeps_key,
}

-- Whether a request with this key has taken effect.
abbrev pub has_key : String → List Post → Bool
has_key key [] = false
has_key key (p ∷ ps) = let rest = has_key key ps in if str_eq p.key key then true else rest

-- The server's ledger: the requests that have taken effect, each of which has redeemed its credit. A
-- request takes effect at most once for each key, whatever it answers; nothing else touches the ledger.
pub record IsIdempotent {W : Type 0} (env : Env W) (ledger : W → List Post) : Type 0 where
  pub once :
      (c : CodexCredentials) (key credit : String) (w : W)
      → (ledger (env.consume c key credit w).1 ≡ ledger w)
        ⊎ ((has_key key (ledger w) ≡ false)
            × (ledger (env.consume c key credit w).1
                ≡ ledger w ++ record { key = key; credit = credit } ∷ []))
  pub by_clock : (w : W) → ledger (env.now w).1 ≡ ledger w
  pub by_log : (call : LogCall) (w : W) → ledger (env.logf call w) ≡ ledger w

-- At most this request has taken effect, and not again.
abbrev pub SpendsOnce : Post → List Post → List Post → Type 0
SpendsOnce p before after =
    (after ≡ before) ⊎ ((has_key p.key before ≡ false) × (after ≡ before ++ p ∷ []))

has_key-append : (p : Post) (ps : List Post) → has_key p.key (ps ++ p ∷ []) ≡ true
has_key-append p [] = ground (arith, eq_iff p.key p.key)
has_key-append p (q ∷ ps) = ground (arith, has_key-append p ps)

SpendsOnce-trans :
    (p : Post) (a b c : List Post) → SpendsOnce p a b → SpendsOnce p b c → SpendsOnce p a c
SpendsOnce-trans p a b c (inl e) (inl f) = inl (f ∙ e)
SpendsOnce-trans p a b c (inl e) (inr (n, f)) = inr (rw (← e) n, f ∙ ap (λ l. l ++ p ∷ []) e)
SpendsOnce-trans p a b c (inr (n, e)) (inl f) = inr (n, f ∙ e)
SpendsOnce-trans p a b c (inr (n, e)) (inr (k, f)) =
    absurd (cc (sym k, ap (has_key p.key) e, has_key-append p a))

module _ {W : Type 0} (env : Env W) (ledger : W → List Post)
    (server : IsIdempotent env ledger) where
  on_decision_ledger :
      (now : Time) (resp : ConsumeResponse) (e : Option GoError) (d : RetryDecision) (m : Machine W)
      → ledger (on_decision env now resp e d m).1.world ≡ ledger m.world
  on_decision_ledger now resp e success m = server.by_log _ _
  on_decision_ledger now resp e stop m = server.by_log _ _
  on_decision_ledger now resp e retry m =
      elim (Bool-cases
        (ltb_ℤ (pos (length reset_retry_delays)) (wrap64 (m.fsm.attempt.attempt +ℤ pos 1)))) [
          | inl t ↦ rw t (server.by_log _ _)
          | inr t ↦ rw t (server.by_log _ _)
        ]

  resetting-SpendsOnce :
      (m : Machine W)
      → SpendsOnce (pinned m.fsm) (ledger m.world) (ledger (step_resetting env m).1.world)
  unfolding step_resetting
  resetting-SpendsOnce m =
      let f = m.fsm in
      let quiet = server.by_clock m.world in
      let after = on_decision_ledger _ _ _ _ _ in
      elim (server.once f.creds f.attempt.redeem_request_id f.attempt.target_credit_id
        (env.now m.world).1) [
          | inl e ↦ inl (after ∙ e ∙ quiet)
          | inr (n, e) ↦ inr (rw (← quiet) n, after ∙ e ∙ ap (λ l. l ++ pinned f ∷ []) quiet)
        ]

  tick-SpendsOnce :
      (m : Machine W)
      → m.fsm.state ≡ resetting
      → SpendsOnce (pinned m.fsm) (ledger m.world) (ledger (step_locked env m).1.world)
  tick-SpendsOnce m s = rw (in_resetting env m s) (resetting-SpendsOnce m)

  -- On a server that keeps the promise of its key, an account that is in RESETTING, ticked while it is,
  -- redeems at most one credit, the pinned one, and none if the key has taken effect before, however
  -- many requests it sends and whatever becomes of their answers.
  pub redeem_loop-SpendsOnce :
      (n : ℕ) (m : Machine W)
      → m.fsm.state ≡ resetting
      → SpendsOnce (pinned m.fsm) (ledger m.world) (ledger (redeem_loop env n m).world)
  unfolding redeem_loop
  redeem_loop-SpendsOnce zero m s = inl refl
  redeem_loop-SpendsOnce (suc n) m s =
      let next = (step_locked env m).1 in
      let first = tick-SpendsOnce m s in
      rw (redeem_loop-suc env n m s) (elim (State-discrete next.fsm.state resetting) [
        | no left ↦ rw (redeem_loop-stop env n next left) first
        | yes again ↦
            let same = (retry_keeps_key env m s again).0 in
            let rest = redeem_loop-SpendsOnce n next again in
            SpendsOnce-trans (pinned m.fsm) _ _ _ first (rw same at rest)
      ])
