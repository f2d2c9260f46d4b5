-- ===== src/Fsm/Verify.antt =====
-- `stepVERIFYING` of resetbank.go: the triple check after a reset.
use cpa_plugin_codex_auto_re.Prelude.{
  ◌>>=◌, ◌>>◌, pure, pos, String, Bool, true, false, ◌&&◌, ◌||◌, some, List, [], ◌∷◌, ◌++◌,
  if◌then◌else◌, ltb_ℤ, leb_ℤ, eqb_ℤ, str_eq, ◌-ℤ◌, wrap64,
}
use cpa_plugin_codex_auto_re.Models.{
  Time, zero_time, done, Credit, Snapshot, Message, say, Value, NextAt,
}
use cpa_plugin_codex_auto_re.Client.{GoError, Result, ok, err}
use cpa_plugin_codex_auto_re.Fsm.Machine.{
  Env, AccountFsm, M, get, modify, lift, clock, log, abandon, short_id,
}

-- `c.ID == id && c.Status == "available"` of no credit of the list.
unfoldable pub target_gone : String → List Credit → Bool
target_gone id [] = true
target_gone id (c ∷ cs) =
    let rest = target_gone id cs in
    if str_eq c.id id && str_eq c.status "available" then false else rest

-- `credits.AvailableCount == preSnapshot.AvailableCount-1`.
unfoldable pub count_down : Snapshot → Snapshot → Bool
count_down pre post = eqb_ℤ post.available_count (wrap64 (pre.available_count -ℤ pos 1))

unfoldable pub quota_up : Snapshot → Snapshot → Bool
quota_up pre usage = leb_ℤ (pos 100) usage.weekly_pct || ltb_ℤ pre.weekly_pct usage.weekly_pct

-- The details of every verdict.
abbrev pub verdict_details :
    AccountFsm → Snapshot → Snapshot → Bool → Bool → Bool → List (String × Value)
verdict_details f credits usage gone down up =
    ("credit_id", Value.text f.attempt.target_credit_id)
    ∷ ("redeem_request_id", Value.text f.attempt.redeem_request_id)
    ∷ ("pre_credits", Value.int f.attempt.pre_snapshot.available_count)
    ∷ ("post_credits", Value.int credits.available_count)
    ∷ ("pre_weekly_pct", Value.int f.attempt.pre_snapshot.weekly_pct)
    ∷ ("post_weekly_pct", Value.int usage.weekly_pct)
    ∷ ("target_gone", Value.flag gone)
    ∷ ("count_down_1", Value.flag down)
    ∷ ("quota_recovered", Value.flag up)
    ∷ []

-- The counts and shares that two of the messages print.
abbrev pub verdict_args : AccountFsm → Snapshot → Snapshot → List Value
verdict_args f credits usage =
    Value.int f.attempt.pre_snapshot.available_count
    ∷ Value.int credits.available_count
    ∷ Value.int f.attempt.pre_snapshot.weekly_pct
    ∷ Value.int usage.weekly_pct
    ∷ []

-- The `switch` that logs the verdict: level, message and next action of each case.
abbrev pub verdict_call :
    AccountFsm → Snapshot → Snapshot → Bool → Bool → Bool → String × Message × Message
verdict_call f credits usage gone down up =
    if gone && down && up
    then (
      "info",
      record {
        format = "reset verified OK: credits %d→%d, weekly %d%%→%d%%, target %s consumed";
        args =
            verdict_args f credits usage ++ Value.text (short_id f.attempt.target_credit_id) ∷ [];
      },
      say "cycle complete",
    )
    else if gone && down
    then (
      "warn",
      record {
        format = "reset PARTIAL: credits %d→%d ok but weekly %d%%→%d%% (delayed recovery?)";
        args = verdict_args f credits usage;
      },
      say "cycle complete",
    )
    else (
      "error",
      record {
        format =
            "reset MISMATCH: target_gone=%v count_down_1=%v quota_recovered=%v — halted, no compensating request";
        args = Value.flag gone ∷ Value.flag down ∷ Value.flag up ∷ [];
      },
      say "abandon",
    )

module _ {W : Type 0} (env : Env W) where
  abbrev pub verification_failed : GoError → M W Time
  verification_failed e = do
    f ← get
    abandon env "error"
        (record { format = "verification failed: %v"; args = Value.err_text e ∷ [] })
        (("redeem_request_id", Value.text f.attempt.redeem_request_id)
          ∷ ("target_credit_id", Value.text f.attempt.target_credit_id)
          ∷ [])

  -- `stepVERIFYING` once both answers are in.
  abbrev pub judge : Snapshot → Snapshot → M W Time
  judge credits usage = do
    modify (λ f. record f { last_snapshot = record credits { weekly_pct = usage.weekly_pct } })
    f ← get
    let gone = target_gone f.attempt.target_credit_id credits.credits
    let down = count_down f.attempt.pre_snapshot credits
    let up = quota_up f.attempt.pre_snapshot usage
    modify (λ f. record f { state = done })
    let (level, msg, next_action) = verdict_call f credits usage gone down up
    log env level msg next_action NextAt.nil (verdict_details f credits usage gone down up)
    now ← clock env
    modify (λ g. record g {
      pending_history = some (record {
        timestamp = now;
        auth_id = f.auth_id;
        credit_id = f.attempt.target_credit_id;
        success = gone && down && up;
        pre_weekly_pct = f.attempt.pre_snapshot.weekly_pct;
        post_weekly_pct = usage.weekly_pct;
        pre_credits = f.attempt.pre_snapshot.available_count;
        post_credits = credits.available_count;
      });
    })
    pure zero_time

  verify_usage : Snapshot → Result Snapshot → M W Time
  verify_usage credits (err e) = verification_failed e
  verify_usage credits (ok usage) = judge credits usage

  verify_listed : Result Snapshot → M W Time
  unfolding verify_usage
  verify_listed (err e) = verification_failed e
  verify_listed (ok credits) = do
    f ← get
    usage ← lift (env.get_usage f.creds)
    verify_usage credits usage

  unfoldable pub step_verifying : M W Time
  unfolding verify_listed
  step_verifying = do f ← get; listed ← lift (env.list_credits f.creds); verify_listed listed
