-- ===== src/History/Keys.antt =====
-- Lists with distinct keys.
use cpa_plugin_codex_auto_re.Prelude.{
  ◌≡◌, refl, ◌≢◌, String, false, ◌||◌, List, [], ◌∷◌, ◌++◌, map, All, arith, eq_iff, str_eq,
  contains, Distinct,
}

module _ {A : Type 0} (key : A → String) where
  pub contains-snoc :
      (k : String) (xs : List A) (x : A)
      → contains k (map key (xs ++ x ∷ [])) ≡ (str_eq (key x) k || contains k (map key xs))
  contains-snoc k [] x = refl
  contains-snoc k (y ∷ ys) x = ground (arith, contains-snoc k ys x)

  apart-snoc :
      (k : String) (xs : List A) (x : A)
      → All (λ j. k ≢ j) (map key xs)
      → k ≢ key x
      → All (λ j. k ≢ j) (map key (xs ++ x ∷ []))
  apart-snoc k [] x h n = (n, tt)
  apart-snoc k (y ∷ ys) x h n = (h.0, apart-snoc k ys x h.1 n)

  pub Distinct-snoc :
      (xs : List A) (x : A)
      → Distinct (map key xs)
      → contains (key x) (map key xs) ≡ false
      → Distinct (map key (xs ++ x ∷ []))
  Distinct-snoc [] x d n = (tt, tt)
  Distinct-snoc (y ∷ ys) x d n = (
    apart-snoc (key y) ys x d.0 (λ e. ground (arith, n, e, eq_iff (key y) (key x))),
    Distinct-snoc ys x d.1 (ground (arith, n)),
  )
