-- ===== src/Prelude/Lists.antt =====
-- Lists measured by native numbers, under the library's names, and lists as predicates.
use Prim.Native.Nat.{ℕ, zero, suc, ◌+◌, ◌-◌, ◌≤◌}
use mathlib.Core.Path.{◌≡◌, refl, ap}
use mathlib.Core.Logic.{◌⊎◌, inl, inr}
use native.Mathlib.Nat.{zero-add, suc-add}
use mathlib.Core.Bool.{Bool}
use mathlib.Core.List.{List, [], ◌∷◌, ◌++◌}
use native.Mathlib.Omega.{arith}
use cpa_plugin_codex_auto_re.Prelude.Tests.{if◌then◌else◌, ltb, Bool-cases}

module _ {ℓ} {A : Type ℓ} where
  abbrev pub length : List A → ℕ
  length [] = 0
  length (x ∷ xs) = suc (length xs)

  abbrev pub drop : ℕ → List A → List A
  drop zero xs = xs
  drop (suc n) [] = []
  drop (suc n) (x ∷ xs) = drop n xs

  -- The elements that pass a Boolean test.
  abbrev pub select : (A → Bool) → List A → List A
  select p [] = []
  select p (x ∷ xs) = let rest = select p xs in if p x then x ∷ rest else rest

  pub length-append : (xs ys : List A) → length (xs ++ ys) ≡ length xs + length ys
  length-append [] ys = omega arith
  length-append (x ∷ xs) ys = omega (arith, length-append xs ys)

  pub length-drop : (n : ℕ) (xs : List A) → length (drop n xs) ≡ length xs - n
  length-drop zero xs = omega arith
  length-drop (suc n) [] = omega arith
  length-drop (suc n) (x ∷ xs) = omega (arith, length-drop n xs)

  pub drop-append : (n : ℕ) (xs ys : List A) → n ≤ length xs → drop n (xs ++ ys) ≡ drop n xs ++ ys
  drop-append zero xs ys h = refl
  drop-append (suc n) [] ys h = elim h [ ]
  drop-append (suc n) (x ∷ xs) ys h = drop-append n xs ys (omega arith)

  drop-nil : (n : ℕ) → drop n [] ≡ []
  drop-nil zero = refl
  drop-nil (suc n) = refl

  pub drop-drop : (m n : ℕ) (xs : List A) → drop m (drop n xs) ≡ drop (n + m) xs
  drop-drop m zero xs = rw zero-add
  drop-drop m (suc n) [] = rw (drop-nil m, drop-nil (suc n + m))
  drop-drop m (suc n) (x ∷ xs) = rw suc-add (drop-drop m n xs)

  pub length-select-le : (p : A → Bool) (xs : List A) → length (select p xs) ≤ length xs
  length-select-le p [] = omega arith
  length-select-le p (x ∷ xs) = ground (arith, length-select-le p xs)

  abbrev pub All {κ} : (A → Type κ) → List A → Type κ
  All P [] = Unit
  All P (x ∷ xs) = P x × All P xs

  -- `shown` is the end of `xs`: all of it, or its last `n` elements where there are more.
  pub record IsNewest (n : ℕ) (xs shown : List A) : Type ℓ where
    pub older : List A
    pub whole : xs ≡ older ++ shown
    pub at_most : length shown ≤ n
    pub full : (older ≡ []) ⊎ (length shown ≡ n)

  take_rest :
      (n : ℕ) (xs : List A)
      → n ≤ length xs
      → (older : List A) × (xs ≡ older ++ drop n xs) × (length older ≡ n)
  take_rest zero xs h = ([], refl, refl)
  take_rest (suc n) [] h = elim h [ ]
  take_rest (suc n) (x ∷ xs) h =
      let (older, e, l) = take_rest n xs (omega arith) in (x ∷ older, ap (◌∷◌ x) e, ap suc l)

  pub trimmed-IsNewest :
      (n : ℕ) (xs : List A)
      → IsNewest n xs (if ltb n (length xs) then drop (length xs - n) xs else xs)
  trimmed-IsNewest n xs = elim (Bool-cases (ltb n (length xs))) [
    | inr e ↦
        rw e (record { older = []; whole = refl; at_most = ground (arith, e); full = inl refl })
    | inl e ↦
        let (older, w, _) = take_rest (length xs - n) xs (omega arith) in
        let l : length (drop (length xs - n) xs) ≡ n =
          ground (arith, e, length-drop (length xs - n) xs) in
        rw e (record { older = older; whole = w; at_most = omega (arith, l); full = inr l })
  ]
