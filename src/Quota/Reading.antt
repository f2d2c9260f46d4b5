-- ===== src/Quota/Reading.antt =====
-- What a usage answer says under the keys that the backend writes, told without the parser of quota.go.
use cpa_plugin_codex_auto_re.Prelude.{
  ◌≡◌, refl, ◌∙◌, ap, ℤ, pos, String, ◌&&◌, Option, none, some, List, [], ◌∷◌, if◌then◌else◌, leb_ℤ,
  arith,
}
use cpa_plugin_codex_auto_re.Json.{Fields, member, as_object}
use cpa_plugin_codex_auto_re.Quota.{Floats}
use cpa_plugin_codex_auto_re.Quota.Usage.{
  as_number, get_map_any, get_float_any, get_int_any, available_of, weekly_share, share_at,
}

abbrev pub first_some : {A B : Type 0} → (A → Option B) → List A → Option B
first_some f [] = none
first_some f (a ∷ rest) =
    let later = first_some f rest in elim (f a) [ none ↦ later | some b ↦ some b ]

-- The object or the number under a key, if what is there is one.
abbrev pub object_under : {F : Type 0} → Fields F → String → Option (Fields F)
object_under doc key = elim (member key doc) [ none ↦ none | some v ↦ as_object v ]

abbrev pub number_under : {F : Type 0} → Fields F → String → Option F
number_under doc key = elim (member key doc) [ none ↦ none | some v ↦ as_number v ]

module _ (fl : Floats) where
  abbrev whole_or_zero : Option fl.F → ℤ
  whole_or_zero none = pos 0
  whole_or_zero (some x) = fl.to_int x

  abbrev count_in : Option (Fields fl.F) → ℤ
  count_in none = pos 0
  count_in (some credits) =
      whole_or_zero (first_some (number_under credits) ("available_count" ∷ "availableCount" ∷ []))

  -- The count of credits, cut to a whole number, or 0.
  abbrev pub credits_count : Fields fl.F → ℤ
  credits_count doc =
      count_in
        (first_some (object_under doc) ("rate_limit_reset_credits" ∷ "rateLimitResetCredits" ∷ []))

  -- The share if the length, in seconds, is a week, give or take some 5000.
  abbrev if_week : Option fl.F → Option fl.F → Option fl.F
  if_week none share = none
  if_week (some x) share =
      if leb_ℤ (pos 600000) (fl.to_int x) && leb_ℤ (fl.to_int x) (pos 610000) then share else none

  -- The share that a window shows as used, if it is a weekly one.
  abbrev pub week_used : Fields fl.F → Option fl.F
  week_used win =
      if_week (first_some (number_under win) ("limit_window_seconds" ∷ "limitWindowSeconds" ∷ []))
        (first_some (number_under win) ("used_percent" ∷ "usedPercent" ∷ []))

  abbrev pub window_used : Fields fl.F → String → Option fl.F
  window_used limit key = elim (object_under limit key) [ none ↦ none | some win ↦ week_used win ]

  -- The used share of a rate limit: that of its first weekly window with one.
  abbrev pub limit_used : Fields fl.F → String → Option fl.F
  limit_used doc key = elim (object_under doc key) [
    | none ↦ none
    | some limit ↦
        first_some (window_used limit)
          ("primary_window" ∷ "primaryWindow" ∷ "secondary_window" ∷ "secondaryWindow" ∷ [])
  ]

  first_key-object :
      (doc : Fields fl.F) (keys : List String)
      → get_map_any doc keys ≡ first_some (object_under doc) keys
  first_key-object doc [] = refl
  first_key-object doc (key ∷ keys) = ground (arith, first_key-object doc keys)

  first_key-number :
      (doc : Fields fl.F) (keys : List String)
      → get_float_any doc keys ≡ first_some (number_under doc) keys
  first_key-number doc [] = refl
  first_key-number doc (key ∷ keys) = ground (arith, first_key-number doc keys)

  first_key-int :
      (doc : Fields fl.F) (keys : List String)
      → get_int_any fl doc keys
        ≡ elim (first_some (number_under doc) keys) [ none ↦ none | some x ↦ some (fl.to_int x) ]
  first_key-int doc [] = refl
  first_key-int doc (key ∷ keys) = ground (arith, first_key-int doc keys)

  count_in_lem :
      (o : Option (Fields fl.F))
      → (elim o as (λ _. ℤ) [
        | none ↦ pos 0
        | some credits ↦
            elim (get_int_any fl credits ("available_count" ∷ "availableCount" ∷ [])) as (λ _. ℤ) [
              | none ↦ pos 0
              | some c ↦ c
            ]
      ])
        ≡ count_in o
  count_in_lem none = refl
  count_in_lem (some credits) =
      ground (arith, first_key-int credits ("available_count" ∷ "availableCount" ∷ []))

  pub available_of_lem : (doc : Fields fl.F) → available_of fl doc ≡ credits_count doc
  available_of_lem doc =
      count_in_lem (get_map_any doc ("rate_limit_reset_credits" ∷ "rateLimitResetCredits" ∷ []))
      ∙ ap count_in
          (first_key-object doc ("rate_limit_reset_credits" ∷ "rateLimitResetCredits" ∷ []))

  pub weekly_share_lem : (win : Fields fl.F) → weekly_share fl win ≡ week_used win
  unfolding weekly_share
  weekly_share_lem win = ground (
    arith,
    first_key-int win ("limit_window_seconds" ∷ "limitWindowSeconds" ∷ []),
    first_key-number win ("used_percent" ∷ "usedPercent" ∷ []),
  )

  pub share_at_lem :
      (limit : Fields fl.F) (key : String) → share_at fl key limit ≡ window_used limit key
  unfolding share_at
  share_at_lem limit key = grind (arith, weekly_share_lem)
