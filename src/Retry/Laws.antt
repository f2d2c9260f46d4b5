-- ===== src/Retry/Laws.antt =====
-- The decision table of a consume attempt, and the shape of the backoff.
use cpa_plugin_codex_auto_re.Prelude.{
  ◌≡◌, ◌↔◌, ◌⊎◌, zero, suc, ℤ, pos, negsuc, ◌≤ℤ◌, false, Option, none, some, arith, eq_iff,
}
use cpa_plugin_codex_auto_re.Models.{minutes}
use cpa_plugin_codex_auto_re.Client.{GoError, is_client_error, ConsumeResponse}
use cpa_plugin_codex_auto_re.Retry.{success, retry, classify_consume, backoff_for_attempt}

-- An attempt counts as a success exactly when it returned no error and the code says that the
-- credit is spent, by this request or by an earlier one with the same key.
pub classify_consume-success :
    (resp : ConsumeResponse) (e : Option GoError)
    → (classify_consume resp e ≡ success)
      ↔ ((e ≡ none) × ((resp.code ≡ "reset") ⊎ (resp.code ≡ "already_redeemed")))
unfolding classify_consume
classify_consume-success resp none =
    ground (arith, eq_iff resp.code "reset", eq_iff resp.code "already_redeemed")
classify_consume-success resp (some e) = ground arith

-- An attempt is tried again exactly when it failed by an error that is no 4xx answer.
pub classify_consume-retry :
    (resp : ConsumeResponse) (e : Option GoError)
    → (classify_consume resp e ≡ retry)
      ↔ ((x : GoError) × (e ≡ some x) × (is_client_error x ≡ false))
unfolding classify_consume
classify_consume-retry resp none = ground arith
classify_consume-retry resp (some e) = (λ h. (e, ground arith, ground arith), λ h. ground arith)

backoff_table :
    (n : ℤ)
    → ((n ≡ pos 1) × (backoff_for_attempt n ≡ minutes 1))
      ⊎ ((n ≡ pos 2) × (backoff_for_attempt n ≡ minutes 2))
      ⊎ ((n ≡ pos 3) × (backoff_for_attempt n ≡ minutes 5))
      ⊎ ((n ≡ pos 4) × (backoff_for_attempt n ≡ minutes 10))
      ⊎ (((n ≤ℤ pos 0) ⊎ (pos 5 ≤ℤ n)) × (backoff_for_attempt n ≡ minutes 30))
unfolding backoff_for_attempt
backoff_table (negsuc k) = ground arith
backoff_table (pos zero) = ground arith
backoff_table (pos (suc zero)) = ground arith
backoff_table (pos (suc (suc zero))) = ground arith
backoff_table (pos (suc (suc (suc zero)))) = ground arith
backoff_table (pos (suc (suc (suc (suc zero))))) = ground arith
backoff_table (pos (suc (suc (suc (suc (suc zero)))))) = ground arith
backoff_table (pos (suc (suc (suc (suc (suc (suc k))))))) = ground arith

-- Each delay is between one and thirty minutes.
pub backoff_for_attempt_bounds :
    (n : ℤ) → (minutes 1 ≤ℤ backoff_for_attempt n) × (backoff_for_attempt n ≤ℤ minutes 30)
backoff_for_attempt_bounds n = ground (arith, backoff_table n)
