-- ===== src/Prelude/Sort.antt =====
-- A stable sort by a `less` function, as `sort.SliceStable` promises it, and its laws.
use Prim.Native.Nat.{suc}
use mathlib.Core.Path.{◌≡◌, refl, ap, ◌∙◌}
use mathlib.Core.Bool.{Bool, true, false}
use mathlib.Core.List.{List, [], ◌∷◌, Perm}
use mathlib.Core.List.Perm
use mathlib.Core.Logic.{inl, inr}
use cpa_plugin_codex_auto_re.Prelude.Tests.{if◌then◌else◌, Bool-cases}
use cpa_plugin_codex_auto_re.Prelude.Lists.{All, length, select}

-- Every element stands in relation to all that follow it.
abbrev pub IsSortedBy {ℓ κ} : {A : Type ℓ} → (A → A → Type κ) → List A → Type κ
IsSortedBy R [] = Unit
IsSortedBy R (x ∷ xs) = All (R x) xs × IsSortedBy R xs

module _ {ℓ} {A : Type ℓ} (less : A → A → Bool) where
  -- The place of `x`, which stood before all of `xs`: behind those that are less, before its equals.
  unfoldable pub insert : A → List A → List A
  insert x [] = x ∷ []
  insert x (y ∷ ys) = let rest = insert x ys in if less y x then y ∷ rest else x ∷ y ∷ ys

  unfoldable pub sort_stable : List A → List A
  unfolding insert
  sort_stable [] = []
  sort_stable (x ∷ xs) = insert x (sort_stable xs)

  insert-perm : (x : A) (xs : List A) → Perm (insert x xs) (x ∷ xs)
  unfolding insert
  insert-perm x [] = Perm.refl _
  insert-perm x (y ∷ ys) = elim (Bool-cases (less y x)) [
    | inl e ↦ rw e (Perm.trans (Perm.cons y (insert-perm x ys)) (Perm.swap x y ys))
    | inr e ↦ rw e (Perm.refl _)
  ]

  pub sort_stable-perm : (xs : List A) → Perm (sort_stable xs) xs
  unfolding sort_stable
  sort_stable-perm [] = Perm.refl _
  sort_stable-perm (x ∷ xs) =
      Perm.trans (insert-perm x (sort_stable xs)) (Perm.cons x (sort_stable-perm xs))

  insert-All {κ} : (P : A → Type κ) (x : A) (xs : List A) → P x → All P xs → All P (insert x xs)
  unfolding insert
  insert-All P x [] p h = (p, tt)
  insert-All P x (y ∷ ys) p h = elim (Bool-cases (less y x)) [
    | inl e ↦ rw e (h.0, insert-All P x ys p h.1)
    | inr e ↦ rw e (p, h)
  ]

  pub sort_stable-All {κ} : (P : A → Type κ) (xs : List A) → All P xs → All P (sort_stable xs)
  unfolding sort_stable
  sort_stable-All P [] h = tt
  sort_stable-All P (x ∷ xs) h = insert-All P x (sort_stable xs) h.0 (sort_stable-All P xs h.1)

  -- `a` need not stand behind `b`.
  abbrev pub NotAfter : A → A → Type 0
  NotAfter a b = less b a ≡ false

  module _ (asym : (a b : A) → less a b ≡ true → NotAfter a b)
      (trans : (a b c : A) → NotAfter a b → NotAfter b c → NotAfter a c) where
    All-trans : (x y : A) (xs : List A) → NotAfter x y → All (NotAfter y) xs → All (NotAfter x) xs
    All-trans x y [] h a = tt
    All-trans x y (z ∷ xs) h a = (trans x y z h a.0, All-trans x y xs h a.1)

    insert-IsSortedBy :
        (x : A) (xs : List A) → IsSortedBy NotAfter xs → IsSortedBy NotAfter (insert x xs)
    unfolding insert
    insert-IsSortedBy x [] s = (tt, tt)
    insert-IsSortedBy x (y ∷ ys) s = elim (Bool-cases (less y x)) [
      | inl e ↦ rw e (insert-All (NotAfter y) x ys (asym y x e) s.0, insert-IsSortedBy x ys s.1)
      | inr e ↦ rw e ((e, All-trans x y ys e s.0), s)
    ]

    pub sort_stable-IsSortedBy : (xs : List A) → IsSortedBy NotAfter (sort_stable xs)
    unfolding sort_stable
    sort_stable-IsSortedBy [] = tt
    sort_stable-IsSortedBy (x ∷ xs) =
        insert-IsSortedBy x (sort_stable xs) (sort_stable-IsSortedBy xs)

  module _ {κ} {R : A → A → Type κ} (symmetric : (a b : A) → R a b → R b a) where
    insert-Pairwise :
        (x : A) (xs : List A) → All (R x) xs → IsSortedBy R xs → IsSortedBy R (insert x xs)
    unfolding insert
    insert-Pairwise x [] h s = (tt, tt)
    insert-Pairwise x (y ∷ ys) h s = elim (Bool-cases (less y x)) [
      | inl e ↦ rw e (insert-All (R y) x ys (symmetric x y h.0) s.0, insert-Pairwise x ys h.1 s.1)
      | inr e ↦ rw e (h, s)
    ]

    -- A symmetric relation of all pairs stays one.
    pub sort_stable-Pairwise : (xs : List A) → IsSortedBy R xs → IsSortedBy R (sort_stable xs)
    unfolding sort_stable
    sort_stable-Pairwise [] s = tt
    sort_stable-Pairwise (x ∷ xs) s =
        insert-Pairwise x (sort_stable xs) (sort_stable-All (R x) xs s.0)
          (sort_stable-Pairwise xs s.1)

  insert-length : (x : A) (xs : List A) → length (insert x xs) ≡ suc (length xs)
  unfolding insert
  insert-length x [] = refl
  insert-length x (y ∷ ys) = elim (Bool-cases (less y x)) [
    | inl e ↦ rw e (ap suc (insert-length x ys))
    | inr e ↦ rw e refl
  ]

  pub sort_stable-length : (xs : List A) → length (sort_stable xs) ≡ length xs
  unfolding sort_stable
  sort_stable-length [] = refl
  sort_stable-length (x ∷ xs) = insert-length x (sort_stable xs) ∙ ap suc (sort_stable-length xs)

  -- A list that is in order is left as it is.
  pub sort_stable_id : (xs : List A) → IsSortedBy NotAfter xs → sort_stable xs ≡ xs
  unfolding sort_stable insert
  sort_stable_id [] s = refl
  sort_stable_id (x ∷ xs) s = ap (insert x) (sort_stable_id xs s.1) ∙ in_front xs s.0
    where
      in_front : (ys : List A) → All (NotAfter x) ys → insert x ys ≡ x ∷ ys
      in_front [] h = refl
      in_front (y ∷ ys) h = rw h.0 refl

module _ {ℓ} {A : Type ℓ} (R : A → A → Type 0) (p : A → Bool) where
  select-All : (P : A → Type 0) (xs : List A) → All P xs → All P (select p xs)
  select-All P [] h = tt
  select-All P (x ∷ xs) h = elim (Bool-cases (p x)) [
    | inl e ↦ rw e (h.0, select-All P xs h.1)
    | inr e ↦ rw e (select-All P xs h.1)
  ]

  pub select-IsSortedBy : (xs : List A) → IsSortedBy R xs → IsSortedBy R (select p xs)
  select-IsSortedBy [] s = tt
  select-IsSortedBy (x ∷ xs) s = elim (Bool-cases (p x)) [
    | inl e ↦ rw e (select-All (R x) xs s.0, select-IsSortedBy xs s.1)
    | inr e ↦ rw e (select-IsSortedBy xs s.1)
  ]
