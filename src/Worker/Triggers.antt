-- ===== src/Worker/Triggers.antt =====
-- The calls that reach the worker from the management handlers: `TriggerCheck` and `ForceConfirm`.
use cpa_plugin_codex_auto_re.Prelude.{
  ◌>>=◌, ◌>>◌, pure, String, Option, none, some, List, [], ◌∷◌, if◌then◌else◌, str_eq, lookup,
}
use cpa_plugin_codex_auto_re.Models.{Time}
use cpa_plugin_codex_auto_re.Client.{GoError, account_not_found}
use cpa_plugin_codex_auto_re.Fsm.Machine.{AccountFsm, set_next_wake, force_confirm}
use cpa_plugin_codex_auto_re.Worker.State.{Host, R, get, modify, clock, wake, env_of}
use cpa_plugin_codex_auto_re.Worker.Accounts.{is_idle}
use cpa_plugin_codex_auto_re.Worker.Loop.{put}

-- A patrol now, for an idle account.
abbrev pub pull : Time → AccountFsm → AccountFsm
pull now fsm = if is_idle fsm.state then set_next_wake now fsm else fsm

abbrev pub pull_all : Time → List (String × AccountFsm) → List (String × AccountFsm)
pull_all now [] = []
pull_all now ((id, fsm) ∷ rest) = (id, pull now fsm) ∷ pull_all now rest

module _ {H : Type 0} (host : Host H) where
  unfoldable pub trigger_one : String → Time → Option AccountFsm → R H (Option GoError)
  unfolding wake
  trigger_one id now none = pure (some (account_not_found id))
  trigger_one id now (some fsm) = do put id (pull now fsm); wake; pure none

  unfoldable pub trigger_check : String → R H (Option GoError)
  unfolding trigger_one
  trigger_check id = do
    now ← clock host
    w ← get
    if str_eq id ""
        then (do modify (λ v. record v { fsms = pull_all now v.fsms }); wake; pure none)
        else trigger_one id now (lookup id w.fsms)

  abbrev pub confirm_fsm : AccountFsm → R H AccountFsm
  confirm_fsm fsm s =
      let r = (force_confirm (env_of host) (record { fsm = fsm; world = s.out })).1 in
      (r.fsm, record s { out = r.world })

  unfoldable pub confirm_found : String → Option AccountFsm → R H (Option GoError)
  unfolding wake
  confirm_found id none = pure (some (account_not_found id))
  confirm_found id (some fsm) = do confirmed ← confirm_fsm fsm; put id confirmed; wake; pure none

  unfoldable pub force_confirm_account : String → R H (Option GoError)
  unfolding confirm_found
  force_confirm_account id = do w ← get; confirm_found id (lookup id w.fsms)
