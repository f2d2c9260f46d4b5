-- ===== src/Prelude/StateMonad.antt =====
-- Code that changes a state and returns a value, for `do` blocks.
use mathlib.Core.List.{List, [], ◌∷◌}

abbrev pub St : Type 0 → Type 0 → Type 0
St S A = S → A × S

infixl 5 ◌>>=◌ ◌>>◌
abbrev pub ◌>>=◌ : {S A B : Type 0} → St S A → (A → St S B) → St S B
◌>>=◌ m k s = k (m s).0 (m s).1

abbrev pub ◌>>◌ : {S B : Type 0} → St S (Unit {0}) → St S B → St S B
◌>>◌ m k s = k (m s).1

abbrev pub pure : {S A : Type 0} → A → St S A
pure a s = (a, s)

-- A `for range` loop.
unfoldable pub for_each : {S A : Type 0} → List A → (A → St S (Unit {0})) → St S (Unit {0})
for_each [] body s = (tt, s)
for_each (x ∷ xs) body s = for_each xs body (body x s).1
