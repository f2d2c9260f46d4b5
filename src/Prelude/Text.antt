-- ===== src/Prelude/Text.antt =====
-- What the program uses of Go's package strings, beyond equality.
use Prim.Native.Nat.{ℕ}
use Prim.Native.Char.{Char, code}
use Prim.Native.String.{String}
use mathlib.Core.Path.{◌≡◌, refl, ap, ◌∙◌}
use mathlib.Core.Bool.{Bool, true, false, ◌&&◌, ◌||◌}
use mathlib.Core.List.{List, [], ◌∷◌}
use mathlib.Core.Logic.{inl, inr}
use cpa_plugin_codex_auto_re.Prelude.Tests.{leb, ◌==◌, if◌then◌else◌, Bool-cases}

-- `unicode.IsSpace` of a code point.
abbrev pub is_space : ℕ → Bool
is_space c =
    (leb 9 c && leb c 13)
    || c == 32
    || c == 133
    || c == 160
    || c == 5760
    || (leb 8192 c && leb c 8202)
    || c == 8232
    || c == 8233
    || c == 8239
    || c == 8287
    || c == 12288

abbrev is_nil : String → Bool
is_nil String.[] = true
is_nil (String.◌∷◌ c s) = false

abbrev pub trim_left : String → String
trim_left String.[] = String.[]
trim_left (String.◌∷◌ c s) =
    let rest = trim_left s in if is_space (code c) then rest else String.◌∷◌ c s

abbrev pub trim_right : String → String
trim_right String.[] = String.[]
trim_right (String.◌∷◌ c s) =
    let rest = trim_right s in
    if is_nil rest && is_space (code c) then String.[] else String.◌∷◌ c rest

-- `strings.TrimSpace`.
unfoldable pub trim_space : String → String
trim_space s = trim_right (trim_left s)

trim_right_idem : (s : String) → trim_right (trim_right s) ≡ trim_right s
trim_right_idem String.[] = refl
trim_right_idem (String.◌∷◌ c s) = elim (Bool-cases (is_nil (trim_right s) && is_space (code c))) [
  | inl t ↦ rw t refl
  | inr t ↦ rw (t, trim_right_idem s, t) refl
]

-- The text does not begin with white space.
abbrev StartsBare : String → Type 0
StartsBare String.[] = Unit
StartsBare (String.◌∷◌ c s) = is_space (code c) ≡ false

trim_left-StartsBare : (s : String) → StartsBare (trim_left s)
trim_left-StartsBare String.[] = tt
trim_left-StartsBare (String.◌∷◌ c s) = elim (Bool-cases (is_space (code c))) [
  | inl t ↦ rw t (trim_left-StartsBare s)
  | inr t ↦ rw t t
]

trim_right-StartsBare : (s : String) → StartsBare s → StartsBare (trim_right s)
trim_right-StartsBare String.[] h = tt
trim_right-StartsBare (String.◌∷◌ c s) h =
    elim (Bool-cases (is_nil (trim_right s) && is_space (code c))) [
      | inl t ↦ rw t tt
      | inr t ↦ rw t h
    ]

trim_left_id : (s : String) → StartsBare s → trim_left s ≡ s
trim_left_id String.[] h = refl
trim_left_id (String.◌∷◌ c s) h = rw h refl

pub trim_space_idem : (s : String) → trim_space (trim_space s) ≡ trim_space s
unfolding trim_space
trim_space_idem s =
    ap trim_right (trim_left_id _ (trim_right-StartsBare _ (trim_left-StartsBare s)))
    ∙ trim_right_idem (trim_left s)

-- A character before the first of the parts.
abbrev onto_first : Char → List String → List String
onto_first c [] = String.◌∷◌ c String.[] ∷ []
onto_first c (p ∷ ps) = String.◌∷◌ c p ∷ ps

-- `strings.Split` at one character, given by its code.
unfoldable pub split_at : ℕ → String → List String
split_at c String.[] = String.[] ∷ []
split_at c (String.◌∷◌ x s) =
    let rest = split_at c s in if code x == c then String.[] ∷ rest else onto_first x rest
