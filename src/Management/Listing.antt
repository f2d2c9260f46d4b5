-- ===== src/Management/Listing.antt =====
-- The accounts that are listed, and what the diagnosis says of them.
use mathlib.Core.List.{Mem, mem-cons_self, mem-cons_of_mem, Perm}
use cpa_plugin_codex_auto_re.Prelude.{
  ◌≡◌, refl, ap, Bool, true, false, not, ◌&&◌, List, [], ◌∷◌, ◌++◌, map, Bool-cases, inl, inr,
  select, sort_stable, sort_stable-perm,
}
use mathlib.Core.Path.{subst}
use cpa_plugin_codex_auto_re.Client.{ok}
use cpa_plugin_codex_auto_re.Worker.Accounts.{str_less}
use cpa_plugin_codex_auto_re.Management.Requests.{AccountOption, AuthEntry}
use cpa_plugin_codex_auto_re.Management.Accounts.{
  is_codex, option_of, options_of, list_codex_accounts_for_ui, diagnose,
}

abbrev pub is_eligible : AuthEntry → Bool
is_eligible a = is_codex a && not a.disabled

options_of-select :
    (auths : List AuthEntry) → options_of auths ≡ map option_of (select is_eligible auths)
options_of-select [] = refl
options_of-select (a ∷ rest) = elim (Bool-cases (is_codex a)) [
  | inl t ↦ elim (Bool-cases a.disabled) [
    | inl u ↦ rw (t, u) (options_of-select rest)
    | inr u ↦ rw (t, u) (ap (λ os. option_of a ∷ os) (options_of-select rest))
  ]
  | inr t ↦ rw t (options_of-select rest)
]

-- The listed accounts are the Codex entries of the host that are not disabled, each as often as the host
-- has it, the rate-limited ones included.
pub list_codex_accounts_for_ui_lem :
    (auths : List AuthEntry)
    → (opts : List AccountOption) × (list_codex_accounts_for_ui (ok auths) ≡ ok opts)
      × Perm opts (map option_of (select is_eligible auths))
unfolding list_codex_accounts_for_ui
list_codex_accounts_for_ui_lem auths = (
  sort_stable (λ a b. str_less a.name b.name) (options_of auths),
  refl,
  subst (Perm (sort_stable (λ a b. str_less a.name b.name) (options_of auths)))
      (options_of-select auths) (sort_stable-perm _ (options_of auths)),
)

listed-among :
    (a : AuthEntry) (xs ys : List AuthEntry)
    → is_codex a ≡ true
    → a.disabled ≡ false
    → Mem (option_of a) (options_of (xs ++ a ∷ ys))
listed-among a [] ys c d = rw (c, d) mem-cons_self
listed-among a (x ∷ xs) ys c d = elim (Bool-cases (is_codex x)) [
  | inl t ↦ elim (Bool-cases x.disabled) [
    | inl u ↦ rw (t, u) (listed-among a xs ys c d)
    | inr u ↦ rw (t, u) (mem-cons_of_mem (option_of x) (listed-among a xs ys c d))
  ]
  | inr t ↦ rw t (listed-among a xs ys c d)
]

-- A Codex entry that is unavailable but not disabled is listed, although the diagnosis says that it is
-- skipped.
pub diagnosis_disagrees :
    (a : AuthEntry) (xs ys : List AuthEntry)
    → is_codex a ≡ true
    → a.disabled ≡ false
    → a.unavailable ≡ true
    → ((diagnose a).skipped ≡ "disabled/unavailable")
      × Mem (option_of a) (options_of (xs ++ a ∷ ys))
diagnosis_disagrees a xs ys c d u = (rw (c, d, u) refl, listed-among a xs ys c d)
