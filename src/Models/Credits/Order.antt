-- ===== src/Models/Credits/Order.antt =====
-- What `availableCreditsSorted` returns: the usable credits, soonest expiry first.
use mathlib.Core.List.{Perm, Mem, mem-cons_self, mem-cons_of_mem}
use cpa_plugin_codex_auto_re.Prelude.{
  ◌≡◌, ◌≢◌, ◌↔◌, Bool, true, ◌⊎◌, inl, inr, List, [], ◌∷◌, ◌≤ℤ◌, ◌<ℤ◌, arith, eq_iff, select, All,
  Bool-cases, sort_stable-perm, sort_stable-All, sort_stable-IsSortedBy, IsSortedBy, NotAfter,
}
use cpa_plugin_codex_auto_re.Models.{Time, zero_time, Credit}
use cpa_plugin_codex_auto_re.Models.Credits.{is_usable, expires_before, available_credits_sorted}

-- A credit that may be redeemed at `now`: available, and never expiring or not yet expired.
abbrev pub IsUsable : Time → Credit → Type 0
IsUsable now c = (c.status ≡ "available") × ((c.expires_at ≡ zero_time) ⊎ (now <ℤ c.expires_at))

-- `a` expires no later than `b`, where a credit that never expires comes last.
abbrev pub NoLater : Credit → Credit → Type 0
NoLater a b =
    (b.expires_at ≡ zero_time) ⊎ ((a.expires_at ≢ zero_time) × (a.expires_at ≤ℤ b.expires_at))

is_usable_iff : (now : Time) (c : Credit) → (is_usable now c ≡ true) ↔ IsUsable now c
is_usable_iff now c = ground (arith, eq_iff c.status "available")

select-IsUsable :
    (now : Time) (credits : List Credit) → All (IsUsable now) (select (is_usable now) credits)
select-IsUsable now [] = tt
select-IsUsable now (c ∷ cs) = elim (Bool-cases (is_usable now c)) [
  | inl e ↦ rw e ((is_usable_iff now c).0 e, select-IsUsable now cs)
  | inr e ↦ rw e (select-IsUsable now cs)
]

select-All :
    (P : Credit → Type 0) (p : Credit → Bool) (cs : List Credit) → All P cs → All P (select p cs)
select-All P p [] h = tt
select-All P p (c ∷ cs) h = elim (Bool-cases (p c)) [
  | inl e ↦ rw e (h.0, select-All P p cs h.1)
  | inr e ↦ rw e (select-All P p cs h.1)
]

All-Mem : (cs : List Credit) → All (λ c. Mem c cs) cs
All-Mem cs = within cs (λ c h. h)
  where
    within : (ds : List Credit) → ((c : Credit) → Mem c ds → Mem c cs) → All (λ c. Mem c cs) ds
    within [] h = tt
    within (d ∷ ds) h = (h d mem-cons_self, within ds (λ c i. h c (mem-cons_of_mem d i)))

-- What the server listed and the filter let pass.
pub available_credits_sorted-Mem :
    (credits : List Credit) (now : Time)
    → All (λ c. Mem c credits × IsUsable now c) (available_credits_sorted credits now)
unfolding available_credits_sorted
available_credits_sorted-Mem credits now = sort_stable-All expires_before _ _ (
    All-zip _ (select-All _ (is_usable now) credits (All-Mem credits))
      (select-IsUsable now credits))
  where
    All-zip :
        (ds : List Credit)
        → All (λ c. Mem c credits) ds
        → All (IsUsable now) ds
        → All (λ c. Mem c credits × IsUsable now c) ds
    All-zip [] h k = tt
    All-zip (d ∷ ds) h k = ((h.0, k.0), All-zip ds h.1 k.1)

NotAfter→NoLater : (a b : Credit) → NotAfter expires_before a b → NoLater a b
NotAfter→NoLater a b h = ground (arith, h)

pub expires_before_asym : (a b : Credit) → expires_before a b ≡ true → NotAfter expires_before a b
expires_before_asym a b h = ground arith

pub expires_before_trans :
    (a b c : Credit)
    → NotAfter expires_before a b
    → NotAfter expires_before b c
    → NotAfter expires_before a c
expires_before_trans a b c h k = ground arith

NoLater-sorted :
    (cs : List Credit) → IsSortedBy (NotAfter expires_before) cs → IsSortedBy NoLater cs
NoLater-sorted [] s = tt
NoLater-sorted (c ∷ cs) s = (rest cs s.0, NoLater-sorted cs s.1)
  where
    rest : (ds : List Credit) → All (NotAfter expires_before c) ds → All (NoLater c) ds
    rest [] h = tt
    rest (d ∷ ds) h = (NotAfter→NoLater c d h.0, rest ds h.1)

-- The result is the usable credits, each as often as the server sent it, with the earlier expiry
-- first and those that never expire last.
pub available_credits_sorted_lem :
    (credits : List Credit) (now : Time)
    → let sorted = available_credits_sorted credits now in
      IsSortedBy NoLater sorted
      × All (IsUsable now) sorted
      × Perm sorted (select (is_usable now) credits)
unfolding available_credits_sorted
available_credits_sorted_lem credits now = (
  NoLater-sorted _ (
      sort_stable-IsSortedBy expires_before expires_before_asym expires_before_trans
        (select (is_usable now) credits)),
  sort_stable-All expires_before (IsUsable now) _ (select-IsUsable now credits),
  sort_stable-perm expires_before _,
)
