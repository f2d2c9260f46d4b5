-- ===== src/Quota/Weekly.antt =====
-- What `parseUsageResponse` makes of a usage answer, against a description of it by lists.
use cpa_plugin_codex_auto_re.Prelude.{
  ◌≡◌, ◌⊎◌, negsuc, IsInt64, int_laws, refl, ap, ◌∙◌, inl, inr, ℤ, pos, ◌≤ℤ◌, ◌-ℤ◌, wrap64,
  wrap64_id, ltb_ℤ, String, true, false, Option, none, some, List, [], ◌∷◌, if◌then◌else◌,
  Bool-cases, Option-cases, arith,
}
use cpa_plugin_codex_auto_re.Models.{Time, Snapshot}
use cpa_plugin_codex_auto_re.Client.{Result, ok}
use cpa_plugin_codex_auto_re.Json.{Fields}
use cpa_plugin_codex_auto_re.Quota.{Floats, IsGo}
use cpa_plugin_codex_auto_re.Quota.Usage.{
  get_map_any, path_keys, window_keys, share_at, scan_windows, scan_paths, weekly_left,
  parse_usage_response, used_parts,
}
use cpa_plugin_codex_auto_re.Quota.Reading.{
  first_some, object_under, credits_count, window_used, limit_used, available_of_lem, share_at_lem,
}
use cpa_plugin_codex_auto_re.Fsm.Verify.{quota_up}

abbrev pub keep_some : {A B : Type 0} → (A → Option B) → List A → List B
keep_some f [] = []
keep_some f (a ∷ rest) =
    let later = keep_some f rest in elim (f a) [ none ↦ later | some b ↦ b ∷ later ]

abbrev pub InPercent : ℤ → Type 0
InPercent z = (pos 0 ≤ℤ z) × (z ≤ℤ pos 100)

abbrev rest_of : ℤ → ℤ
rest_of used = let left = wrap64 (pos 100 -ℤ used) in if ltb_ℤ left (pos 0) then pos 0 else left

clamped-InPercent : (z : ℤ) → z ≤ℤ pos 100 → InPercent (if ltb_ℤ z (pos 0) then pos 0 else z)
clamped-InPercent z h = ground arith

difference-IsInt64 : (used : ℤ) → IsInt64 used → pos 0 ≤ℤ used → IsInt64 (pos 100 -ℤ used)
unfolding ◌-ℤ◌
difference-IsInt64 (pos n) fits h = ground arith
difference-IsInt64 (negsuc n) fits h = absurd (omega arith)

rest_of-InPercent :
    (used : ℤ)
    → IsInt64 used
    → (pos 0 ≤ℤ used) ⊎ (used ≡ negsuc 9223372036854775807)
    → InPercent (rest_of used)
unfolding wrap64 ◌-ℤ◌
rest_of-InPercent used fits (inr e) = rw e (omega arith, omega arith)
rest_of-InPercent used fits (inl h) =
    clamped-InPercent (wrap64 (pos 100 -ℤ used))
      (rw (wrap64_id (pos 100 -ℤ used) (difference-IsInt64 used fits h)) (omega int_laws))

module _ (fl : Floats) where
  -- What the loops of the parser find in the rate limit under `path`.
  abbrev path_share : Fields fl.F → String → Option fl.F
  path_share doc path = elim (get_map_any doc (path ∷ [])) [
    | none ↦ none
    | some rl ↦ first_some (λ key. share_at fl key rl) window_keys
  ]

  abbrev first_known : List fl.F → Option fl.F
  first_known us = first_some (λ u. if fl.geq_zero u then some u else none) us

  -- The used share of the week: of those that the rate limits report, the first that is not negative.
  abbrev pub used_share : Fields fl.F → Option fl.F
  used_share doc = first_known (
      keep_some (limit_used fl doc)
        ("rate_limit" ∷ "rateLimit" ∷ "code_review_rate_limit" ∷ "codeReviewRateLimit" ∷ []))

  abbrev pub left_of : Option fl.F → ℤ
  left_of none = pos 100
  left_of (some u) =
      let left = wrap64 (pos 100 -ℤ fl.to_int (fl.add_half u)) in
      if ltb_ℤ left (pos 0) then pos 0 else left

  abbrev IsKnown : Option fl.F → Type 0
  IsKnown none = Unit
  IsKnown (some u) = fl.geq_zero u ≡ true

  or_else : fl.F → Option fl.F → fl.F
  or_else used none = used
  or_else used (some u) = u

  scan_windows_lem :
      (keys : List String) (rl : Fields fl.F) (used : fl.F)
      → scan_windows fl keys rl used ≡ or_else used (first_some (λ key. share_at fl key rl) keys)
  unfolding scan_windows or_else
  scan_windows_lem [] rl used = refl
  scan_windows_lem (key ∷ keys) rl used = ground (arith, scan_windows_lem keys rl used)

  weekly_left-known : (u : fl.F) → fl.geq_zero u ≡ true → weekly_left fl u ≡ left_of (some u)
  unfolding weekly_left
  weekly_left-known u h = rw h refl

  weekly_left-unknown : (u : fl.F) → fl.geq_zero u ≡ false → weekly_left fl u ≡ pos 100
  unfolding weekly_left
  weekly_left-unknown u h = rw h refl

  scan_paths_lem :
      (keys : List String) (doc : Fields fl.F) (used : fl.F)
      → fl.geq_zero used ≡ false
      → weekly_left fl (scan_paths fl keys doc used)
        ≡ left_of (first_known (keep_some (path_share doc) keys))
  unfolding scan_paths or_else
  scan_paths_lem [] doc used h = weekly_left-unknown used h
  scan_paths_lem (key ∷ keys) doc used h = elim (Option-cases (get_map_any doc (key ∷ []))) [
    | inl e ↦ rw (e, scan_paths, keep_some) (scan_paths_lem keys doc used h)
    | inr (rl, e) ↦ elim (Option-cases (first_some (λ k. share_at fl k rl) window_keys)) [
      | inl n ↦
          let w : scan_windows fl window_keys rl used ≡ used =
            scan_windows_lem window_keys rl used ∙ ap (or_else used) n in
          rw (e, scan_paths, w, h, keep_some, n) (scan_paths_lem keys doc used h)
      | inr (u, s) ↦
          let w : scan_windows fl window_keys rl used ≡ u =
            scan_windows_lem window_keys rl used ∙ ap (or_else used) s in
          elim (Bool-cases (fl.geq_zero u)) [
            | inl t ↦ rw (e, scan_paths, w, t, keep_some, s, first_some, t) (weekly_left-known u t)
            | inr t ↦
                rw (e, scan_paths, w, t, keep_some, s, first_some, t) (scan_paths_lem keys doc u t)
          ]
    ]
  ]

  limit_used_lem :
      (doc : Fields fl.F) (path : String) → path_share doc path ≡ limit_used fl doc path
  limit_used_lem doc path = elim (Option-cases (object_under doc path)) [
    | inl e ↦ ground (arith, e)
    | inr (rl, e) ↦
        let same : first_some (λ key. share_at fl key rl) window_keys
            ≡ first_some (window_used fl rl) window_keys =
          ap (λ f. first_some f window_keys) (λ i key. share_at_lem fl rl key i) in
        ground (arith, e, same)
  ]

  used_share_lem :
      (doc : Fields fl.F) → first_known (keep_some (path_share doc) path_keys) ≡ used_share doc
  used_share_lem doc =
      ap (λ f. first_known (keep_some f path_keys)) (λ i path. limit_used_lem doc path i)

  weekly_left_lem :
      (go : IsGo fl) (doc : Fields fl.F)
      → weekly_left fl (scan_paths fl path_keys doc fl.minus_one) ≡ left_of (used_share doc)
  weekly_left_lem go doc =
      scan_paths_lem path_keys doc fl.minus_one go.below ∙ ap left_of (used_share_lem doc)

  left_of-InPercent : IsGo fl → (o : Option fl.F) → IsKnown o → InPercent (left_of o)
  left_of-InPercent go none h = (omega arith, omega arith)
  left_of-InPercent go (some u) h =
      rest_of-InPercent (fl.to_int (fl.add_half u)) (go.fits (fl.add_half u)) (go.rounds u h)

  first_some-IsKnown : (us : List fl.F) → IsKnown (first_known us)
  first_some-IsKnown [] = tt
  first_some-IsKnown (u ∷ us) = elim (Bool-cases (fl.geq_zero u)) [
    | inl t ↦ rw (first_some, t) t
    | inr t ↦ rw (first_some, t) (first_some-IsKnown us)
  ]

  module _ (go : IsGo fl) (unmarshal : String → Result (Fields fl.F)) where
    -- What a decoded usage answer gives: the count of credits under the backend's two keys for it, no
    -- credits, and 100 less the rounded used share of the first rate limit, of four keys, whose first
    -- window of a week's length with a share has one that is not negative, but at least 0; and 100 if there
    -- is none. Floats are compared and converted as Go does.
    pub parse_usage_response_lem :
        (raw : String) (now : Time) (doc : Fields fl.F)
        → unmarshal raw ≡ ok doc
        → (parse_usage_response fl unmarshal raw now
            ≡ ok (record {
              available_count = credits_count fl doc;
              credits = [];
              weekly_pct = left_of (used_share doc);
              captured_at = now;
            }))
          × InPercent (left_of (used_share doc))
    unfolding parse_usage_response
    parse_usage_response_lem raw now doc h = (
      rw (h, used_parts, available_of_lem fl doc, weekly_left_lem go doc) refl,
      left_of-InPercent go (used_share doc) (first_some-IsKnown _),
    )

    -- A usage answer without a used share for the week counts as a full share, so that a verification
    -- takes the quota for recovered, whatever it was before.
    pub unknown_share-recovers :
        (raw : String) (now : Time) (doc : Fields fl.F) (pre snap : Snapshot)
        → unmarshal raw ≡ ok doc
        → used_share doc ≡ none
        → parse_usage_response fl unmarshal raw now ≡ ok snap
        → quota_up pre snap ≡ true
    unfolding quota_up
    unknown_share-recovers raw now doc pre snap h e r =
        let lem = (parse_usage_response_lem raw now doc h).0 in
        let pct : snap.weekly_pct ≡ pos 100 = cc (lem, ap left_of e) in rw pct refl
