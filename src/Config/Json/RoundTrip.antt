-- ===== src/Config/Json/RoundTrip.antt =====
-- A configuration that is written as JSON and read back.
use Prim.Native.Char.{Char}
use Prim.Native.String.{String, ◌++◌}
use text.Mathlib.TextLemmas.{cons-append}
use mathlib.Core.Path.{subst}
use cpa_plugin_codex_auto_re.Prelude.{
  ◌≡◌, ◌≢◌, refl, sym, ap, ◌∙◌, inl, inr, Bool, true, false, str_eq, eq_iff, Bool-cases, arith,
}
use cpa_plugin_codex_auto_re.Models.{Duration, Config}
use cpa_plugin_codex_auto_re.Client.{Result, ok}
use cpa_plugin_codex_auto_re.Config.Json.{
  RawDuration, has_suffix, without_last_two, cut_if, format_duration, marshal_json,
  parse_duration_json, unmarshal_json,
}

-- A suffix of a unit and a zero with a smaller one: what is cut off, and what stands before it.
record IsUnits (suffix unit tail : String) : Type 0 where
  pub whole : suffix ≡ without_last_two suffix ++ tail
  pub ends : has_suffix unit (without_last_two suffix) ≡ true
  pub not_empty : str_eq "" suffix ≡ false
  pub not_single : (c : Char) → str_eq (String.◌∷◌ c "") suffix ≡ false

module _ (suffix unit tail : String) (u : IsUnits suffix unit tail) where
  abbrev IsCut : String → Type 0
  IsCut s = (s ≡ without_last_two s ++ tail) × (has_suffix unit (without_last_two s) ≡ true)

  whole-IsCut : (s : String) → str_eq s suffix ≡ true → IsCut s
  whole-IsCut s e = subst IsCut (sym ((eq_iff s suffix).0 e)) (u.whole, u.ends)

  suffix-IsCut : (s : String) → has_suffix suffix s ≡ true → IsCut s
  suffix-IsCut String.[] h = absurd (cc (h, u.not_empty))
  suffix-IsCut (String.◌∷◌ c String.[]) h = absurd (cc (rw (u.not_single c, u.not_empty) at h))
  suffix-IsCut (String.◌∷◌ c (String.◌∷◌ d String.[])) h =
      elim (Bool-cases (str_eq (String.◌∷◌ c (String.◌∷◌ d "")) suffix)) [
        | inl e ↦ whole-IsCut _ e
        | inr e ↦ absurd (cc (rw (e, u.not_single d, u.not_empty) at h))
      ]
  suffix-IsCut (String.◌∷◌ c (String.◌∷◌ d (String.◌∷◌ x s))) h =
      elim (Bool-cases (str_eq (String.◌∷◌ c (String.◌∷◌ d (String.◌∷◌ x s))) suffix)) [
        | inl e ↦ whole-IsCut _ e
        | inr e ↦
            let rest = suffix-IsCut (String.◌∷◌ d (String.◌∷◌ x s)) (rw e at h) in
            (ap (String.◌∷◌ c) rest.0 ∙ sym (cons-append c _ tail), ground (arith, rest.1))
      ]

  -- Cutting the suffix off changes nothing for a reader that takes a unit with and without it.
  cut_if-parse :
      (parse : String → Result Duration)
      → ((s : String) → has_suffix unit s ≡ true → parse (s ++ tail) ≡ parse s)
      → (s : String) → parse (cut_if suffix s) ≡ parse s
  cut_if-parse parse lenient s = elim (Bool-cases (has_suffix suffix s)) [
    | inl e ↦
        let cut = suffix-IsCut s e in
        rw e (sym (lenient (without_last_two s) cut.1) ∙ ap parse (sym cut.0))
    | inr e ↦ rw e refl
  ]

-- More than one character.
abbrev is_long : String → Bool
is_long (String.◌∷◌ c (String.◌∷◌ d s)) = true
is_long _ = false

long-not_single : (s : String) → is_long s ≡ true → (c : Char) → str_eq (String.◌∷◌ c "") s ≡ false
long-not_single s h c = elim (Bool-cases (str_eq (String.◌∷◌ c "") s)) [
  | inl e ↦ absurd (cc (ap is_long ((eq_iff (String.◌∷◌ c "") s).0 e), h))
  | inr e ↦ e
]

no_seconds : IsUnits "m0s" "m" "0s"
no_seconds = record {
  whole = refl;
  ends = refl;
  not_empty = refl;
  not_single = long-not_single "m0s" refl;
}

no_minutes : IsUnits "h0m" "h" "0m"
no_minutes = record {
  whole = refl;
  ends = refl;
  not_empty = refl;
  not_single = long-not_single "h0m" refl;
}

-- What `time.ParseDuration` promises: it reads back what `String` writes, it does not read the empty text,
-- and a last unit with a zero makes no difference.
pub record ReadsBack (show : Duration → String) (parse : String → Result Duration) : Type 0 where
  pub reads : (d : Duration) → parse (show d) ≡ ok d
  pub not_blank : (d : Duration) → parse "" ≢ ok d
  pub no_seconds : (s : String) → has_suffix "m" s ≡ true → parse (s ++ "0s") ≡ parse s
  pub no_minutes : (s : String) → has_suffix "h" s ≡ true → parse (s ++ "0m") ≡ parse s

module _ (show : Duration → String) (parse : String → Result Duration)
    (back : ReadsBack show parse) where
  format_duration-parse : (d : Duration) → parse (format_duration show parse d) ≡ ok d
  unfolding format_duration
  format_duration-parse d =
      cut_if-parse "h0m" "h" "0m" no_minutes parse back.no_minutes (cut_if "m0s" (show d))
      ∙ cut_if-parse "m0s" "m" "0s" no_seconds parse back.no_seconds (show d)
      ∙ back.reads d

  parse_duration_json-read :
      (s : String) (d : Duration)
      → parse s ≡ ok d
      → parse_duration_json show parse (RawDuration.text s) ≡ ok d
  unfolding parse_duration_json
  parse_duration_json-read s d h = elim (Bool-cases (str_eq s "")) [
    | inl e ↦ absurd (back.not_blank d (ap parse (sym ((eq_iff s "").0 e)) ∙ h))
    | inr e ↦ rw (e, h) refl
  ]

  -- A configuration that is written as JSON and read back is as it was, but for the state directory,
  -- which is lost.
  pub marshal_json-unmarshal_json :
      (c : Config)
      → unmarshal_json show parse (marshal_json show parse c) ≡ ok (record c { state_dir = "" })
  unfolding unmarshal_json marshal_json
  marshal_json-unmarshal_json c =
      let r = parse_duration_json-read _ c.refresh_interval (format_duration-parse _) in
      let t = parse_duration_json-read _ c.trigger_lead_time (format_duration-parse _) in
      rw (r, t) refl
