-- ===== src/History/Verdicts.antt =====
-- Which log entries are the verdict of a reset, told without `backfillResetHistoryFromLogs`.
use cpa_plugin_codex_auto_re.Prelude.{
  ◌≡◌, refl, sym, ◌∙◌, ap, List, [], ◌∷◌, All, contains, inl, inr, ℤ, pos, String, true, ◌&&◌, some,
  eqb_ℤ, eqb_ℤ_iff, str_eq, eq_iff, Bool-cases, lookup, arith,
}
use cpa_plugin_codex_auto_re.Models.{Time, done, Message, LogEntry, ResetRecord}
use cpa_plugin_codex_auto_re.History.{
  as_number, as_text, backfill_key, record_key, record_of, is_verified,
}

-- The number of credits before or after the reset, and the credit, as the entry's details have them.
abbrev number_in : LogEntry → String → ℤ
number_in e name = as_number (lookup name e.details)

abbrev pub credit_in : LogEntry → String
credit_in e = as_text (lookup "credit_id" e.details)

-- The entry was written in DONE, and its details name a credit or a count.
abbrev pub IsVerdict : LogEntry → Type 0
IsVerdict e =
    (e.state ≡ some done)
    × ¬ (
        (number_in e "pre_credits" ≡ pos 0)
        × (number_in e "post_credits" ≡ pos 0)
        × (credit_in e ≡ ""))

named_blank :
    (e : LogEntry)
    → (eqb_ℤ (number_in e "pre_credits") (pos 0)
        && eqb_ℤ (number_in e "post_credits") (pos 0)
        && str_eq (credit_in e) "")
      ≡ true
    → (number_in e "pre_credits" ≡ pos 0)
      × (number_in e "post_credits" ≡ pos 0)
      × (credit_in e ≡ "")
named_blank e t = ground (
  arith,
  t,
  eqb_ℤ_iff (number_in e "pre_credits") (pos 0),
  eqb_ℤ_iff (number_in e "post_credits") (pos 0),
  eq_iff (credit_in e) "",
)

module _ (format : Time → String) (render : Message → String) where
  abbrev verdict_record : LogEntry → ResetRecord
  verdict_record e = record {
    timestamp = e.timestamp;
    auth_id = e.scope;
    credit_id = credit_in e;
    success = is_verified format render e;
    pre_weekly_pct = number_in e "pre_weekly_pct";
    post_weekly_pct = number_in e "post_weekly_pct";
    pre_credits = number_in e "pre_credits";
    post_credits = number_in e "post_credits";
  }

  pub IsVerdict-record_of :
      (e : LogEntry)
      → IsVerdict e
      → (r : ResetRecord) × (record_of format render e ≡ some r)
        × (record_key format render r
            ≡ backfill_key format render e.scope (credit_in e) e.timestamp)
  unfolding backfill_key
  IsVerdict-record_of e (d, named) =
      elim (Bool-cases (
        eqb_ℤ (number_in e "pre_credits") (pos 0)
        && eqb_ℤ (number_in e "post_credits") (pos 0)
        && str_eq (credit_in e) "")) [
          | inl t ↦ absurd (named (named_blank e t))
          | inr t ↦ (verdict_record e, rw (d, t) refl, refl)
        ]

  -- The log entry gives no record, or one whose key is there.
  abbrev pub IsRecorded : List String → LogEntry → Type 0
  IsRecorded ks e =
      (r : ResetRecord)
      → record_of format render e ≡ some r
      → contains (record_key format render r) ks ≡ true

  -- A verdict has a record under its account, its credit and its second.
  abbrev pub IsKept : List String → LogEntry → Type 0
  IsKept ks e =
      IsVerdict e
      → contains (backfill_key format render e.scope (credit_in e) e.timestamp) ks ≡ true

  pub IsRecorded-IsKept :
      (ks : List String) (es : List LogEntry) → All (IsRecorded ks) es → All (IsKept ks) es
  IsRecorded-IsKept ks [] h = tt
  IsRecorded-IsKept ks (e ∷ es) h = (
    λ v.
        let (r, given, same) = IsVerdict-record_of e v in
        ap (λ k. contains k ks) (sym same) ∙ h.0 r given,
    IsRecorded-IsKept ks es h.1,
  )
