-- ===== src/Prelude.antt =====
-- The names that the other modules share: the libraries', passed on, and those of the children.
pub mod Tests
pub mod Lists
pub mod Int
pub mod Sort
pub mod StateMonad
pub mod Assoc
pub mod Text
pub use Tests.*
pub use Lists.*
unfoldable pub use Int.{◌+ℤ◌, ◌-ℤ◌, wrap64}
pub use Int.{
  ℤ, pos, negsuc, pos_part, neg_part, ◌≤ℤ◌, ◌<ℤ◌, ltb_ℤ, leb_ℤ, eqb_ℤ, +ℤ_parts, -ℤ_parts,
  eq_of_parts, eqb_ℤ_iff, ltb_ℤ-true, ltb_ℤ-false, int_laws, two63, IsInt64, wrap64_id,
}
pub use Prim.Native.Nat.{ℕ, zero, suc, ◌+◌, ◌-◌, ◌*◌, ◌≤◌, ◌<◌}
pub use Prim.Native.String.{String}
pub use mathlib.Core.Path.{◌≡◌, refl, sym, ap, ◌∙◌}
pub use mathlib.Core.Logic.{◌≢◌, ◌↔◌, ◌⊎◌, inl, inr}
pub use mathlib.Core.Bool.{Bool, true, false, not, ◌&&◌, ◌||◌}
pub use mathlib.Core.Option.{Option, none, some}
pub use mathlib.Core.List.{List, [], ◌∷◌, ◌++◌, map}
pub use native.Mathlib.Omega.{arith}
pub use text.Mathlib.Text.{◌==◌ as str_eq}
pub use text.Mathlib.TextEquality.{eq_iff}
unfoldable pub use Sort.{sort_stable}
pub use Sort.{
  IsSortedBy, sort_stable-perm, sort_stable-All, NotAfter, sort_stable-IsSortedBy,
  sort_stable-Pairwise, sort_stable-length, sort_stable_id, select-IsSortedBy,
}
pub use Assoc.{
  Distinct, contains, contains-insert, lookup, insert, erase, lookup-insert, lookup-insert_self,
  lookup-erase, insert-insert, Each, Each-insert, Each-erase, Each-lookup,
}
pub use StateMonad.{St, ◌>>=◌, ◌>>◌, pure}
unfoldable pub use StateMonad.{for_each}
unfoldable pub use Text.{trim_space, split_at}
pub use Text.{trim_space_idem}
