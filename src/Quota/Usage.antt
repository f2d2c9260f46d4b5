-- ===== src/Quota/Usage.antt =====
-- `parseUsageResponse` of quota.go: the count of credits, and the weekly window found by its length.
use cpa_plugin_codex_auto_re.Prelude.{
  ◌-ℤ◌, ℤ, pos, String, Bool, ◌&&◌, Option, none, some, List, [], ◌∷◌, if◌then◌else◌, ltb_ℤ, leb_ℤ,
  wrap64,
}
use cpa_plugin_codex_auto_re.Models.{Time, Snapshot}
use cpa_plugin_codex_auto_re.Client.{GoError, Result, ok, err}
use cpa_plugin_codex_auto_re.Json.{Json, Fields, member, as_object}
use cpa_plugin_codex_auto_re.Quota.{Floats}

-- The value of the first key whose value passes a type assertion.
abbrev pub first_key : {F A : Type 0} → (Json F → Option A) → Fields F → List String → Option A
first_key view root [] = none
first_key view root (key ∷ keys) =
    let rest = first_key view root keys in
    elim (member key root) [
      | none ↦ rest
      | some v ↦ elim (view v) [ none ↦ rest | some a ↦ some a ]
    ]

-- `v.(float64)`.
abbrev pub as_number : {F : Type 0} → Json F → Option F
as_number (Json.num x) = some x
as_number _ = none

abbrev pub get_map_any : {F : Type 0} → Fields F → List String → Option (Fields F)
get_map_any root keys = first_key as_object root keys

abbrev pub get_float_any : {F : Type 0} → Fields F → List String → Option F
get_float_any root keys = first_key as_number root keys

abbrev pub path_keys : List String
path_keys = "rate_limit" ∷ "rateLimit" ∷ "code_review_rate_limit" ∷ "codeReviewRateLimit" ∷ []

abbrev pub window_keys : List String
window_keys = "primary_window" ∷ "primaryWindow" ∷ "secondary_window" ∷ "secondaryWindow" ∷ []

module _ (fl : Floats) where
  -- `v.(float64)` as an `int`; the decoder makes no `int` of its own.
  abbrev pub as_int : Json fl.F → Option ℤ
  as_int (Json.num x) = some (fl.to_int x)
  as_int _ = none

  abbrev pub get_int_any : Fields fl.F → List String → Option ℤ
  get_int_any root keys = first_key as_int root keys

  abbrev pub available_of : Fields fl.F → ℤ
  available_of doc =
      elim (get_map_any doc ("rate_limit_reset_credits" ∷ "rateLimitResetCredits" ∷ [])) [
        | none ↦ pos 0
        | some credits ↦ elim (get_int_any credits ("available_count" ∷ "availableCount" ∷ [])) [
          | none ↦ pos 0
          | some c ↦ c
        ]
      ]

  -- 604800 seconds, give or take.
  abbrev pub is_weekly : ℤ → Bool
  is_weekly secs = leb_ℤ (pos 600000) secs && leb_ℤ secs (pos 610000)

  -- The used share of a window that is weekly and has one.
  unfoldable pub weekly_share : Fields fl.F → Option fl.F
  weekly_share win = elim (get_int_any win ("limit_window_seconds" ∷ "limitWindowSeconds" ∷ [])) [
    | none ↦ none
    | some secs ↦
        if is_weekly secs then get_float_any win ("used_percent" ∷ "usedPercent" ∷ []) else none
  ]

  unfoldable pub share_at : String → Fields fl.F → Option fl.F
  share_at key rl = elim (get_map_any rl (key ∷ [])) [ none ↦ none | some win ↦ weekly_share win ]

  -- The inner loop, which a share ends.
  unfoldable pub scan_windows : List String → Fields fl.F → fl.F → fl.F
  scan_windows [] rl used = used
  scan_windows (key ∷ keys) rl used =
      let rest = scan_windows keys rl used in elim (share_at key rl) [ none ↦ rest | some u ↦ u ]

  -- The outer loop, which a share that is not negative ends.
  unfoldable pub scan_paths : List String → Fields fl.F → fl.F → fl.F
  scan_paths [] doc used = used
  scan_paths (key ∷ keys) doc used = elim (get_map_any doc (key ∷ [])) [
    | none ↦ scan_paths keys doc used
    | some rl ↦
        let u = scan_windows window_keys rl used in
        let rest = scan_paths keys doc u in if fl.geq_zero u then u else rest
  ]

  -- The share that is left, not below 0; 100 where no used share is known.
  unfoldable pub weekly_left : fl.F → ℤ
  weekly_left used =
      if fl.geq_zero used
      then (let left = wrap64 (pos 100 -ℤ fl.to_int (fl.add_half used)) in
          if ltb_ℤ left (pos 0) then pos 0 else left)
      else pos 100

  abbrev pub used_parts : Time → Result (Fields fl.F) → Result Snapshot
  used_parts now (err e) = err (GoError.wrapped "parse usage response: %w" e)
  used_parts now (ok doc) = ok (record {
    available_count = available_of doc;
    credits = [];
    weekly_pct = weekly_left (scan_paths path_keys doc fl.minus_one);
    captured_at = now;
  })

  unfoldable pub parse_usage_response :
      (String → Result (Fields fl.F)) → String → Time → Result Snapshot
  parse_usage_response unmarshal raw now = used_parts now (unmarshal raw)
