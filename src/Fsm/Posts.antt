-- ===== src/Fsm/Posts.antt =====
-- The `POST /consume` requests that a machine sends, read off a world that records them.
use mathlib.Core.List.{append-nil}
use cpa_plugin_codex_auto_re.Prelude.{◌≡◌, sym, ◌∙◌, String, List, [], ◌∷◌, ◌++◌, arith}
use cpa_plugin_codex_auto_re.Models.{State, idle, armed, confirming, resetting, verifying, done}
use cpa_plugin_codex_auto_re.Fsm.Machine.{Env, AccountFsm, Machine}
use cpa_plugin_codex_auto_re.Fsm.Idle.{step_idle, step_armed}
use cpa_plugin_codex_auto_re.Fsm.Confirm.{step_confirming}
use cpa_plugin_codex_auto_re.Fsm.Redeem.{step_resetting}
use cpa_plugin_codex_auto_re.Fsm.Verify.{step_verifying}
use cpa_plugin_codex_auto_re.Fsm.Tick.{step_in, step_locked}

-- An idempotency key and a credit.
pub record Post : Type 0 where
  pub key : String
  pub credit : String

pub record Spy (W : Type 0) : Type 0 where
  pub inner : W
  pub posts : List Post

-- The same environment, with each `Consume` written down.
abbrev pub spied : {W : Type 0} → Env W → Env (Spy W)
spied env = record {
  now = λ s. ((env.now s.inner).0, record s { inner = (env.now s.inner).1 });
  list_credits =
      λ c s. ((env.list_credits c s.inner).0, record s { inner = (env.list_credits c s.inner).1 });
  get_usage =
      λ c s. ((env.get_usage c s.inner).0, record s { inner = (env.get_usage c s.inner).1 });
  consume = λ c key credit s. (
    (env.consume c key credit s.inner).0,
    record {
      inner = (env.consume c key credit s.inner).1;
      posts = s.posts ++ record { key = key; credit = credit } ∷ [];
    },
  );
  new_uuid = λ s. ((env.new_uuid s.inner).0, record s { inner = (env.new_uuid s.inner).1 });
  logf = λ call s. record s { inner = env.logf call s.inner };
}

-- The request of the pinned attempt.
abbrev pub pinned : AccountFsm → Post
pinned f = record { key = f.attempt.redeem_request_id; credit = f.attempt.target_credit_id }

abbrev pub posts_of : State → AccountFsm → List Post
posts_of resetting f = pinned f ∷ []
posts_of _ f = []

module _ {W : Type 0} (env : Env W) where
  idle_posts : (m : Machine (Spy W)) → (step_idle (spied env) m).1.world.posts ≡ m.world.posts
  unfolding step_idle
  idle_posts m = ground arith

  armed_posts : (m : Machine (Spy W)) → (step_armed (spied env) m).1.world.posts ≡ m.world.posts
  unfolding step_armed
  armed_posts m = ground arith

  confirming_posts :
      (m : Machine (Spy W)) → (step_confirming (spied env) m).1.world.posts ≡ m.world.posts
  unfolding step_confirming
  confirming_posts m = ground arith

  verifying_posts :
      (m : Machine (Spy W)) → (step_verifying (spied env) m).1.world.posts ≡ m.world.posts
  unfolding step_verifying
  verifying_posts m = ground arith

  resetting_posts :
      (m : Machine (Spy W))
      → (step_resetting (spied env) m).1.world.posts ≡ m.world.posts ++ pinned m.fsm ∷ []
  unfolding step_resetting
  resetting_posts m = ground arith

  step_in_posts :
      (s : State) (m : Machine (Spy W))
      → (step_in (spied env) s m).1.world.posts ≡ m.world.posts ++ posts_of s m.fsm
  unfolding step_in
  step_in_posts idle m = idle_posts m ∙ sym (append-nil _)
  step_in_posts armed m = armed_posts m ∙ sym (append-nil _)
  step_in_posts confirming m = confirming_posts m ∙ sym (append-nil _)
  step_in_posts resetting m = resetting_posts m
  step_in_posts verifying m = verifying_posts m ∙ sym (append-nil _)
  step_in_posts done m = sym (append-nil _)

  -- A tick sends exactly one reset request in RESETTING, with the key and the credit that the attempt
  -- has pinned, and none in any other state.
  pub step_locked_posts :
      (m : Machine (Spy W))
      → (step_locked (spied env) m).1.world.posts ≡ m.world.posts ++ posts_of m.fsm.state m.fsm
  unfolding step_locked
  step_locked_posts m = step_in_posts m.fsm.state m
