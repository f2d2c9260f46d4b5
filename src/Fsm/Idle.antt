-- ===== src/Fsm/Idle.antt =====
-- `stepIDLE` and `stepARMED` of resetbank.go.
use cpa_plugin_codex_auto_re.Prelude.{
  ◌>>=◌, ◌>>◌, pure, String, not, List, [], ◌∷◌, if◌then◌else◌, ltb_ℤ, ◌+ℤ◌,
}
use cpa_plugin_codex_auto_re.Models.{
  Time, is_zero, hours, minutes, armed, confirming, Credit, Snapshot, Message, say, Value, NextAt,
}
use cpa_plugin_codex_auto_re.Models.Credits.{available_credits_sorted}
use cpa_plugin_codex_auto_re.Client.{Result, ok, err}
use cpa_plugin_codex_auto_re.Fsm.Machine.{
  Env, M, get, modify, lift, clock, log, short_id, trigger_time, arm_threshold,
}

-- The snapshot with the weekly share of a successful usage call.
abbrev pub with_usage : Snapshot → Result Snapshot → Snapshot
with_usage snap (ok usage) = record snap { weekly_pct = usage.weekly_pct }
with_usage snap (err e) = snap

module _ {W : Type 0} (env : Env W) where
  -- The returns of `stepIDLE` that go on patrolling.
  abbrev pub patrol : Time → String → Message → Message → List (String × Value) → M W Time
  patrol now level msg next_action details = do
    f ← get
    let next = now +ℤ f.cfg.refresh_interval
    modify (λ f. record f { next_wake = next })
    log env level msg next_action (NextAt.at next) details
    pure next

  -- Arms the account for `target` and sleeps to its trigger time, or not at all if that has passed.
  abbrev pub arm : Time → Credit → M W Time
  arm now target = do
    f ← get
    let due = trigger_time f target
    let wake = if not (ltb_ℤ now due) then now else due
    modify (λ f. record f { scheduled_credit_id = target.id; state = armed; next_wake = wake })
    log env "warn"
        (record {
          format = "credit %s armed; will reset at %s (expiry in %s)";
          args =
              Value.text (short_id target.id)
              ∷ Value.clock_text due
              ∷ Value.until target.expires_at now (minutes 1)
              ∷ [];
        })
        (say "sleep to trigger time") (NextAt.at wake)
        (("credit_id", Value.text target.id) ∷ ("T", Value.time due) ∷ [])
    pure wake

  -- `stepIDLE` once the soonest credit is known.
  abbrev pub schedule : Time → Credit → M W Time
  schedule now target = do
    f ← get
    if is_zero target.expires_at
        then patrol now "info" (say "no expiring credits to schedule") (say "patrol") []
        else if ltb_ℤ now (arm_threshold f target)
        then patrol now "info"
            (record {
              format =
                  "credit %s expires in %s; not near trigger window (will arm %s before expiry point)";
              args =
                  Value.text (short_id target.id)
                  ∷ Value.until target.expires_at now (hours 1)
                  ∷ Value.duration f.cfg.refresh_interval
                  ∷ [];
            })
            (say "patrol")
            (("credit_id", Value.text target.id)
              ∷ ("expires_at", Value.time target.expires_at)
              ∷ [])
        else arm now target

  abbrev pub schedule_head : Time → List Credit → M W Time
  schedule_head now [] = patrol now "info" (say "no available credits") (say "patrol") []
  schedule_head now (target ∷ rest) = schedule now target

  idle_listed : Time → Result Snapshot → M W Time
  idle_listed now (err e) =
      patrol now "warn" (record { format = "list failed: %v"; args = Value.err_text e ∷ [] })
        (say "retry patrol") []
  idle_listed now (ok snap) = do
    f ← get
    modify (λ f. record f { last_snapshot = snap })
    usage ← lift (env.get_usage f.creds)
    modify (λ f. record f { last_snapshot = with_usage snap usage })
    schedule_head now (available_credits_sorted (with_usage snap usage).credits now)

  unfoldable pub step_idle : M W Time
  unfolding idle_listed
  step_idle = do
    now ← clock env
    f ← get
    listed ← lift (env.list_credits f.creds)
    idle_listed now listed

  unfoldable pub step_armed : M W Time
  step_armed = do
    modify (λ f. record f { state = confirming })
    log env "info" (say "armed wake, confirming target and trigger time")
        (say "confirm before reset") NextAt.nil []
    clock env
