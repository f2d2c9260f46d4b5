-- ===== src/Retry.antt =====
-- retry.go: what follows a consume attempt, and the delay before the next one.
pub mod Laws
use cpa_plugin_codex_auto_re.Prelude.{
  ℕ, zero, suc, ◌-◌, ℤ, pos, neg_part, pos_part, Bool, ◌||◌, Option, none, some, List, [], ◌∷◌,
  length, if◌then◌else◌, ltb_ℤ, str_eq,
}
use cpa_plugin_codex_auto_re.Models.{Duration, reset_retry_delays}
use cpa_plugin_codex_auto_re.Client.{GoError, is_client_error, ConsumeResponse}

pub data RetryDecision : Type 0 where
  success retry stop : RetryDecision

-- `delays[i]` for an index within the list.
abbrev pub index : List Duration → ℕ → Duration
index [] i = pos 0
index (d ∷ ds) zero = d
index (d ∷ ds) (suc i) = index ds i

unfoldable pub backoff_for_attempt : ℤ → Duration
backoff_for_attempt attempt =
    if ltb_ℤ attempt (pos 1) || ltb_ℤ (pos (length reset_retry_delays)) attempt
    then index reset_retry_delays (length reset_retry_delays - 1)
    else index reset_retry_delays (pos_part attempt - 1)

-- The `switch` on the code; `stop` is its `default` too.
abbrev pub classify_code : ConsumeResponse → RetryDecision
classify_code resp =
    if str_eq resp.code "reset" || str_eq resp.code "already_redeemed"
    then success
    else if str_eq resp.code "no_credit" || str_eq resp.code "nothing_to_reset"
    then stop
    else stop

unfoldable pub classify_consume : ConsumeResponse → Option GoError → RetryDecision
classify_consume resp (some e) = if is_client_error e then stop else retry
classify_consume resp none = classify_code resp
