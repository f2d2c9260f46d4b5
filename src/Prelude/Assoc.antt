-- ===== src/Prelude/Assoc.antt =====
-- Go's maps with string keys: association lists, in the order in which `range` happens to visit them.
use mathlib.Core.Path.{◌≡◌, refl, subst}
use mathlib.Core.Logic.{◌≢◌, ◌↔◌, ◌⊎◌, inl, inr}
use mathlib.Core.Bool.{Bool, true, false, ◌||◌}
use mathlib.Core.Option.{Option, none, some}
use mathlib.Core.List.{List, [], ◌∷◌}
use native.Mathlib.Omega.{arith}
use Prim.Native.String.{String}
use text.Mathlib.Text.{◌==◌}
use text.Mathlib.TextEquality.{eq_iff}
use cpa_plugin_codex_auto_re.Prelude.Sort.{IsSortedBy}
use cpa_plugin_codex_auto_re.Prelude.Tests.{if◌then◌else◌, Bool-cases}

abbrev pub Distinct : List String → Type 0
Distinct ks = IsSortedBy (λ j k. j ≢ k) ks

-- A map to `bool`, used as a set.
abbrev pub contains : String → List String → Bool
contains k [] = false
contains k (x ∷ xs) = x == k || contains k xs

pub contains-insert :
    (k j : String) (ks : List String)
    → (contains j (k ∷ ks) ≡ true) ↔ ((k ≡ j) ⊎ (contains j ks ≡ true))
contains-insert k j ks = ground (arith, eq_iff k j)

module _ {V : Type 0} where
  -- `v, ok := m[k]`.
  abbrev pub lookup : String → List (String × V) → Option V
  lookup k [] = none
  lookup k ((j, v) ∷ m) = let rest = lookup k m in if j == k then some v else rest

  -- `m[k] = v`.
  abbrev pub insert : String → V → List (String × V) → List (String × V)
  insert k v [] = (k, v) ∷ []
  insert k v ((j, w) ∷ m) = let rest = insert k v m in if j == k then (j, v) ∷ m else (j, w) ∷ rest

  -- `delete(m, k)`.
  abbrev pub erase : String → List (String × V) → List (String × V)
  erase k [] = []
  erase k ((j, w) ∷ m) = let rest = erase k m in if j == k then rest else (j, w) ∷ rest

  pub lookup-insert :
      (k j : String) (v : V) (m : List (String × V))
      → lookup j (insert k v m) ≡ (if k == j then some v else lookup j m)
  lookup-insert k j v [] = refl
  lookup-insert k j v ((i, w) ∷ m) =
      ground (arith, eq_iff k j, eq_iff i k, eq_iff i j, lookup-insert k j v m)

  pub lookup-insert_self :
      (k : String) (v : V) (m : List (String × V)) → lookup k (insert k v m) ≡ some v
  lookup-insert_self k v m = ground (arith, lookup-insert k k v m, eq_iff k k)

  pub lookup-erase :
      (k j : String) (m : List (String × V))
      → lookup j (erase k m) ≡ (if k == j then none else lookup j m)
  lookup-erase k j [] = ground arith
  lookup-erase k j ((i, w) ∷ m) =
      ground (arith, eq_iff k j, eq_iff i k, eq_iff i j, lookup-erase k j m)

  pub insert-insert :
      (k : String) (v w : V) (m : List (String × V)) → insert k w (insert k v m) ≡ insert k w m
  insert-insert k v w [] = ground (arith, eq_iff k k)
  insert-insert k v w ((j, u) ∷ m) = ground (arith, eq_iff j k, insert-insert k v w m)

  -- A property of every value.
  abbrev pub Each : (V → Type 0) → List (String × V) → Type 0
  Each P [] = Unit
  Each P ((k, v) ∷ m) = P v × Each P m

  pub Each-insert :
      (P : V → Type 0) (k : String) (v : V) (m : List (String × V))
      → P v
      → Each P m
      → Each P (insert k v m)
  Each-insert P k v [] p h = (p, tt)
  Each-insert P k v ((j, w) ∷ m) p h = ground (arith, p, h, Each-insert P k v m p h.1)

  pub Each-erase :
      (P : V → Type 0) (k : String) (m : List (String × V)) → Each P m → Each P (erase k m)
  Each-erase P k [] h = tt
  Each-erase P k ((j, w) ∷ m) h = ground (arith, h, Each-erase P k m h.1)

  pub Each-lookup :
      (P : V → Type 0) (k : String) (m : List (String × V)) {v : V}
      → Each P m
      → lookup k m ≡ some v
      → P v
  Each-lookup P k [] h e = cc
  Each-lookup P k ((j, w) ∷ m) {v} h e = elim (Bool-cases (j == k)) [
    | inl t ↦ let same : w ≡ v = ground arith in subst P same h.0
    | inr t ↦ Each-lookup P k m h.1 (rw t at e)
  ]
