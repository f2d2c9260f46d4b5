-- ===== src/Fsm/Confirm.antt =====
-- `stepCONFIRMING` of resetbank.go.
use cpa_plugin_codex_auto_re.Prelude.{
  ◌>>=◌, ◌>>◌, pure, pos, String, not, Option, none, some, List, [], ◌∷◌, if◌then◌else◌, ltb_ℤ,
  str_eq,
}
use cpa_plugin_codex_auto_re.Models.{
  Time, zero_time, is_zero, armed, resetting, Credit, no_credit_row, Snapshot, say, Value, NextAt,
}
use cpa_plugin_codex_auto_re.Models.Credits.{available_credits_sorted}
use cpa_plugin_codex_auto_re.Client.{Result, ok, err}
use cpa_plugin_codex_auto_re.Fsm.Machine.{
  Env, AccountFsm, M, get, modify, lift, clock, log, abandon, short_id, trigger_time,
}

-- The first credit of the list with this identifier.
abbrev pub find_by_id : String → List Credit → Option Credit
find_by_id id [] = none
find_by_id id (c ∷ cs) = let rest = find_by_id id cs in if str_eq c.id id then some c else rest

abbrev pub or_empty : Option Credit → Credit
or_empty none = no_credit_row
or_empty (some c) = c

abbrev pub head? : List Credit → Option Credit
head? [] = none
head? (c ∷ cs) = some c

-- The credit to redeem, or `Credit{}`: the soonest for a manual reset, else the pinned one.
unfoldable pub pick_target : AccountFsm → List Credit → Credit
pick_target f avail =
    if f.manual_reset
    then or_empty (head? avail)
    else if not (str_eq f.scheduled_credit_id "")
    then or_empty (find_by_id f.scheduled_credit_id avail)
    else no_credit_row

module _ {W : Type 0} (env : Env W) where
  -- Back to sleep: the target's trigger time has moved away.
  abbrev pub re_arm : Credit → M W Time
  re_arm target = do
    f ← get
    let due = trigger_time f target
    modify (λ f. record f { state = armed; next_wake = due })
    log env "info" (say "target credit not yet due; re-armed") (say "sleep to trigger time")
        (NextAt.at due) (("credit_id", Value.text target.id) ∷ ("T", Value.time due) ∷ [])
    pure due

  -- Records the attempt under a new idempotency key.
  abbrev pub begin_reset : Time → Snapshot → Credit → M W Time
  begin_reset now snap target = do
    key ← lift env.new_uuid
    modify (λ f. record f {
      attempt = record {
        redeem_request_id = key;
        target_credit_id = target.id;
        pre_snapshot = snap;
        started_at = now;
        attempt = pos 0;
        next_retry_at = zero_time;
      };
      state = resetting;
    })
    log env "info"
        (record {
          format =
              "confirmed target credit %s (pre: credits=%d, weekly=%d%%); sending reset request";
          args =
              Value.text (short_id target.id)
              ∷ Value.int snap.available_count
              ∷ Value.int snap.weekly_pct
              ∷ [];
        })
        (say "send reset request") NextAt.nil
        (("credit_id", Value.text target.id)
          ∷ ("pre_credits", Value.int snap.available_count)
          ∷ ("pre_weekly_pct", Value.int snap.weekly_pct)
          ∷ ("target_expires_at", Value.time target.expires_at)
          ∷ ("redeem_request_id", Value.text key)
          ∷ [])
    clock env

  -- `stepCONFIRMING` from the usage call on.
  confirm_usage : Time → Snapshot → Credit → Result Snapshot → M W Time
  confirm_usage now snap target (err e) =
      abandon env "error"
        (record { format = "confirm usage failed: %v"; args = Value.err_text e ∷ [] }) []
  confirm_usage now snap target (ok usage) =
      begin_reset now (record snap { weekly_pct = usage.weekly_pct }) target

  abbrev pub confirm_pre : Time → Snapshot → Credit → M W Time
  unfolding confirm_usage
  confirm_pre now snap target = do
    f ← get
    usage ← lift (env.get_usage f.creds)
    confirm_usage now snap target usage

  -- `stepCONFIRMING` once the target is known.
  abbrev pub confirm_target : Time → Snapshot → Credit → M W Time
  unfolding confirm_usage
  confirm_target now snap target = do
    f ← get
    if str_eq target.id ""
        then abandon env "warn" (say "target credit missing or unavailable before reset") []
        else if f.manual_reset
        then confirm_pre now snap target
        else if is_zero target.expires_at
        then abandon env "info" (say "target credit no longer expires") []
        else if ltb_ℤ now (trigger_time f target)
        then re_arm target
        else confirm_pre now snap target

  confirm_listed : Time → Result Snapshot → M W Time
  unfolding confirm_usage
  confirm_listed now (err e) =
      abandon env "error"
        (record { format = "confirm list failed: %v"; args = Value.err_text e ∷ [] }) []
  confirm_listed now (ok snap) = do
    f ← get
    confirm_target now snap (pick_target f (available_credits_sorted snap.credits now))

  unfoldable pub step_confirming : M W Time
  unfolding confirm_listed
  step_confirming = do
    now ← clock env
    f ← get
    listed ← lift (env.list_credits f.creds)
    confirm_listed now listed
