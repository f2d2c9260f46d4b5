-- ===== src/Quota.antt =====
-- The parsers of quota.go. `json.Unmarshal` into a struct and `time.Parse` are arguments; a usage answer is
-- decoded into `map[string]any` and read here.
pub mod Usage
pub mod Reading
pub mod Weekly
use cpa_plugin_codex_auto_re.Prelude.{
  ◌≡◌, ℤ, pos, negsuc, pos_part, neg_part, ◌≤ℤ◌, IsInt64, two63, ◌⊎◌, String, Bool, true, false,
  not, Option, none, some, List, [], ◌∷◌, if◌then◌else◌, str_eq,
}
use cpa_plugin_codex_auto_re.Models.{Time, zero_time, Credit, Snapshot}
use cpa_plugin_codex_auto_re.Models.Credits.{available_credits_sorted}
use cpa_plugin_codex_auto_re.Client.{GoError, ConsumeResponse, Result, ok, err}

-- What the code does with a `float64`.
pub record Floats : Type 1 where
  pub F : Type 0
  pub minus_one : F
  -- `x >= 0`, `x + 0.5` and `int(x)`.
  pub geq_zero : F → Bool
  pub add_half : F → F
  pub to_int : F → ℤ

-- Go's rules: -1 is below 0, and a float that is not negative becomes an `int` that is not negative or,
-- where it is too large for one, the least `int`.
pub record IsGo (fl : Floats) : Type 0 where
  pub below : fl.geq_zero fl.minus_one ≡ false
  pub fits : (x : fl.F) → IsInt64 (fl.to_int x)
  pub rounds :
      (x : fl.F)
      → fl.geq_zero x ≡ true
      → (pos 0 ≤ℤ fl.to_int (fl.add_half x))
        ⊎ (fl.to_int (fl.add_half x) ≡ negsuc 9223372036854775807)

-- `rawCredit` and `resetCreditsBody`.
pub record RawCredit : Type 0 where
  pub id : String
  pub status : String
  pub expires_at : Option String

pub record ResetCreditsBody : Type 0 where
  pub credits : List RawCredit
  pub available_count : ℤ

module _ (parse_time : String → Option Time) where
  -- A time that is absent, empty or does not parse stays the zero time.
  abbrev pub expiry_of : Option String → Time
  expiry_of none = zero_time
  expiry_of (some s) =
      if not (str_eq s "") then elim (parse_time s) [ some t ↦ t | none ↦ zero_time ] else zero_time

  abbrev pub rows : List RawCredit → List Credit
  rows [] = []
  rows (rc ∷ rest) =
      record { id = rc.id; status = rc.status; expires_at = expiry_of rc.expires_at } ∷ rows rest

  abbrev pub listed : Time → Result ResetCreditsBody → Result Snapshot
  unfolding available_credits_sorted
  listed now (err e) = err (GoError.wrapped "parse reset-credits response: %w" e)
  listed now (ok body) = ok (record {
    available_count = body.available_count;
    credits = available_credits_sorted (rows body.credits) now;
    weekly_pct = negsuc 0;
    captured_at = now;
  })

  unfoldable pub parse_reset_credits_response :
      (String → Result ResetCreditsBody) → String → Time → Result Snapshot
  unfolding listed
  parse_reset_credits_response unmarshal raw now = listed now (unmarshal raw)

abbrev pub consumed : Result ConsumeResponse → Result ConsumeResponse
consumed (err e) = err (GoError.wrapped "parse consume response: %w" e)
consumed (ok resp) = ok resp

unfoldable pub parse_consume_response :
    (String → Result ConsumeResponse) → String → Result ConsumeResponse
parse_consume_response unmarshal raw = consumed (unmarshal raw)
