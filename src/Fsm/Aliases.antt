-- ===== src/Fsm/Aliases.antt =====
-- The `next_at` of a log entry that points into the state machine: what a reader of the log sees there.
use mathlib.Core.Path.{subst}
use cpa_plugin_codex_auto_re.Prelude.{
  ◌≡◌, Option, some, none, List, [], ◌∷◌, ◌++◌, refl, sym, ◌∙◌, ap, arith,
}
use cpa_plugin_codex_auto_re.Models.{Time, zero_time, NextAt, resetting, verifying, done}
use cpa_plugin_codex_auto_re.Fsm.Machine.{Env, AccountFsm, Machine, LogCall}
use cpa_plugin_codex_auto_re.Client.{GoError, ConsumeResponse}
use cpa_plugin_codex_auto_re.Retry.{RetryDecision}
use cpa_plugin_codex_auto_re.Fsm.Redeem.{on_decision, step_resetting}
use cpa_plugin_codex_auto_re.Fsm.Verify.{step_verifying}
use cpa_plugin_codex_auto_re.Fsm.Tick.{step_locked, step_and_settle, in_resetting, in_verifying}
use cpa_plugin_codex_auto_re.Fsm.Settle.{step_and_settle_done}

-- The time that a reader finds in the entry, when the state machine has come to `f`.
abbrev pub deref : NextAt → AccountFsm → Option Time
deref NextAt.nil f = none
deref (NextAt.at t) f = some t
deref NextAt.verify_due_field f = some f.verify_due
deref NextAt.next_retry_field f = some f.attempt.next_retry_at

-- A world with the calls of the logger, in order.
pub record Logged (W : Type 0) : Type 0 where
  pub inner : W
  pub calls : List LogCall

-- The environment that writes each call of the logger down.
abbrev pub logging : {W : Type 0} → Env W → Env (Logged W)
logging env = record {
  now = λ s. ((env.now s.inner).0, record s { inner = (env.now s.inner).1 });
  list_credits =
      λ c s. ((env.list_credits c s.inner).0, record s { inner = (env.list_credits c s.inner).1 });
  get_usage =
      λ c s. ((env.get_usage c s.inner).0, record s { inner = (env.get_usage c s.inner).1 });
  consume = λ c key credit s. (
    (env.consume c key credit s.inner).0,
    record s { inner = (env.consume c key credit s.inner).1 },
  );
  new_uuid = λ s. ((env.new_uuid s.inner).0, record s { inner = (env.new_uuid s.inner).1 });
  logf = λ call s. record { inner = env.logf call s.inner; calls = s.calls ++ call ∷ [] };
}

-- A step from `m` with the wake `wake` has logged one more entry, which points to `verify_due`, and that
-- is the wake.
abbrev Announced : {W : Type 0} → Machine (Logged W) → Time × Machine (Logged W) → Type 0
Announced m (wake, a) =
    (call : LogCall) × (a.world.calls ≡ m.world.calls ++ call ∷ [])
    × (call.next_at ≡ NextAt.verify_due_field)
    × (a.fsm.verify_due ≡ wake)

module _ {W : Type 0} (env : Env W) where
  decided-Announced :
      (d : RetryDecision) (now : Time) (resp : ConsumeResponse) (e : Option GoError)
      (m : Machine (Logged W))
      → m.fsm.state ≡ resetting
      → (on_decision (logging env) now resp e d m).1.fsm.state ≡ verifying
      → Announced m (on_decision (logging env) now resp e d m)
  decided-Announced RetryDecision.success now resp e m s h = (_, refl, refl, refl)
  decided-Announced RetryDecision.stop now resp e m s h = absurd (cc)
  decided-Announced RetryDecision.retry now resp e m s h = absurd (ground arith)

  resetting-Announced :
      (m : Machine (Logged W))
      → m.fsm.state ≡ resetting
      → (step_resetting (logging env) m).1.fsm.state ≡ verifying
      → Announced m (step_resetting (logging env) m)
  unfolding step_resetting
  resetting-Announced m s h = decided-Announced _ _ _ _ _ s h

  verifying_ends :
      (m : Machine (Logged W))
      → let r = step_verifying (logging env) m in (r.0 ≡ zero_time) × (r.1.fsm.state ≡ done)
  unfolding step_verifying
  verifying_ends m = ground arith

  settle_keeps :
      (m : Machine (Logged W))
      → let a = step_and_settle (logging env) m in
        let b = step_locked (logging env) m in
        a.1.fsm.state ≡ verifying
        → (b.1.fsm.state ≡ verifying)
          × (a.1.world.calls ≡ b.1.world.calls)
          × (a.0 ≡ b.0)
          × (a.1.fsm.verify_due ≡ b.1.fsm.verify_due)
  unfolding step_and_settle
  settle_keeps m h = ground arith

  accepted-Announced :
      (m : Machine (Logged W))
      → m.fsm.state ≡ resetting
      → (step_and_settle (logging env) m).1.fsm.state ≡ verifying
      → Announced m (step_and_settle (logging env) m)
  accepted-Announced m s h =
      let (v, calls, wake, due) = settle_keeps m h in
      let (call, written, points, set) =
        subst (Announced m) (sym (in_resetting (logging env) m s))
          (resetting-Announced m s (rw (in_resetting (logging env) m s) at v)) in
      (call, calls ∙ written, points, due ∙ set ∙ sym wake)

  verified_due :
      (a : Machine (Logged W))
      → a.fsm.state ≡ verifying
      → (step_and_settle (logging env) a).1.fsm.verify_due ≡ zero_time
  verified_due a s =
      let (wake, ended) = verifying_ends a in
      let here = in_verifying (logging env) a s in
      (step_and_settle_done (logging env) a (rw here wake) (rw here ended)).4

  -- When the server accepts a reset, the tick writes one log entry. A reader finds in it the wake that the
  -- tick returns, the time of the verification, and once the next tick has settled, the zero time: the
  -- entry no longer says when the account was to be verified.
  pub settled_next_at_zero :
      (m : Machine (Logged W))
      → m.fsm.state ≡ resetting
      → (step_and_settle (logging env) m).1.fsm.state ≡ verifying
      → let a = step_and_settle (logging env) m in
        let b = step_and_settle (logging env) a.1 in
        (entry : LogCall) × (a.1.world.calls ≡ m.world.calls ++ entry ∷ [])
        × (deref entry.next_at a.1.fsm ≡ some a.0)
        × (deref entry.next_at b.1.fsm ≡ some zero_time)
  settled_next_at_zero m s h =
      let (entry, written, points, due) = accepted-Announced m s h in
      (entry, written, rw points (ap some due), rw points (ap some (verified_due _ h)))
