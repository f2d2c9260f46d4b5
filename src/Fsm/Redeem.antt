-- ===== src/Fsm/Redeem.antt =====
-- `stepRESETTING` of resetbank.go.
use cpa_plugin_codex_auto_re.Prelude.{
  ◌>>=◌, ◌>>◌, pure, ℤ, pos, Option, none, some, [], ◌∷◌, length, if◌then◌else◌, ltb_ℤ, ◌+ℤ◌, ◌-ℤ◌,
  wrap64,
}
use cpa_plugin_codex_auto_re.Models.{
  Time, post_reset_verify_delay, reset_retry_delays, verifying, Message, Value, NextAt,
}
use cpa_plugin_codex_auto_re.Client.{GoError, ConsumeResponse}
use cpa_plugin_codex_auto_re.Retry.{
  RetryDecision, success, stop, retry, classify_consume, backoff_for_attempt,
}
use cpa_plugin_codex_auto_re.Fsm.Machine.{Env, M, get, modify, lift, clock, log, abandon}

-- `%v` of an `error` that may be nil.
abbrev pub show_error : Option GoError → Value
show_error none = Value.text "<nil>"
show_error (some e) = Value.err_text e

abbrev pub stopped_message : ConsumeResponse → Option GoError → Message
stopped_message resp none = record {
  format = "reset stopped: server returned %s";
  args = Value.text resp.code ∷ [];
}
stopped_message resp (some e) = record {
  format = "reset stopped: %v";
  args = Value.err_text e ∷ [];
}

module _ {W : Type 0} (env : Env W) where
  abbrev pub accept : Time → ConsumeResponse → M W Time
  accept now resp = do
    let due = now +ℤ post_reset_verify_delay
    modify (λ f. record f { state = verifying; verify_due = due; next_wake = due })
    f ← get
    log env "info"
        (record {
          format = "reset request accepted (code=%s, windows_reset=%d); will verify in %v";
          args =
              Value.text resp.code
              ∷ Value.int resp.windows_reset
              ∷ Value.duration post_reset_verify_delay
              ∷ [];
        })
        (record { format = "verify in %v"; args = Value.duration post_reset_verify_delay ∷ [] })
        NextAt.verify_due_field
        (("redeem_request_id", Value.text f.attempt.redeem_request_id)
          ∷ ("credit_id", Value.text f.attempt.target_credit_id)
          ∷ ("consume_code", Value.text resp.code)
          ∷ ("windows_reset", Value.int resp.windows_reset)
          ∷ [])
    pure due

  abbrev pub refuse : ConsumeResponse → Option GoError → M W Time
  refuse resp e = do
    f ← get
    abandon env "warn" (stopped_message resp e)
        (("redeem_request_id", Value.text f.attempt.redeem_request_id) ∷ [])

  abbrev pub back_off : Time → ℤ → Option GoError → M W Time
  back_off now n e = do
    let backoff = backoff_for_attempt n
    let next = now +ℤ backoff
    modify
        (λ f. record f { attempt = record (f.attempt) { next_retry_at = next }; next_wake = next })
    f ← get
    log env "warn"
        (record {
          format = "reset failed (attempt %d): %v; retrying with same idempotency key";
          args = Value.int n ∷ show_error e ∷ [];
        })
        (record { format = "retry in %v"; args = Value.duration backoff ∷ [] })
        NextAt.next_retry_field
        (("redeem_request_id", Value.text f.attempt.redeem_request_id)
          ∷ ("attempt", Value.int n)
          ∷ [])
    pure next

  -- The next attempt, or the end of the cycle after the last delay.
  abbrev pub try_again : Time → Option GoError → M W Time
  try_again now e = do
    modify (λ f. record f {
      attempt = record (f.attempt) { attempt = wrap64 (f.attempt.attempt +ℤ pos 1) };
    })
    f ← get
    if ltb_ℤ (pos (length reset_retry_delays)) f.attempt.attempt
        then abandon env "error"
            (record {
              format = "retries exhausted after %d attempts; last error: %v";
              args = Value.int (wrap64 (f.attempt.attempt -ℤ pos 1)) ∷ show_error e ∷ [];
            })
            (("redeem_request_id", Value.text f.attempt.redeem_request_id) ∷ [])
        else back_off now f.attempt.attempt e

  abbrev pub on_decision : Time → ConsumeResponse → Option GoError → RetryDecision → M W Time
  on_decision now resp e success = accept now resp
  on_decision now resp e stop = refuse resp e
  on_decision now resp e retry = try_again now e

  unfoldable pub step_resetting : M W Time
  step_resetting = do
    now ← clock env
    f ← get
    answer ← lift (env.consume f.creds f.attempt.redeem_request_id f.attempt.target_credit_id)
    on_decision now answer.0 answer.1 (classify_consume answer.0 answer.1)
