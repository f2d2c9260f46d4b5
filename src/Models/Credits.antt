-- ===== src/Models/Credits.antt =====
-- `availableCreditsSorted` of models.go: the defensive filter and the stable sort by expiry.
pub mod Order
use cpa_plugin_codex_auto_re.Prelude.{
  Bool, true, false, not, ◌&&◌, List, if◌then◌else◌, ltb_ℤ, str_eq, select, sort_stable,
}
use cpa_plugin_codex_auto_re.Models.{Time, is_zero, Credit}

-- The tests of the loop, whose `continue`s leave a credit out.
abbrev pub is_usable : Time → Credit → Bool
is_usable now c =
    if not (str_eq c.status "available")
    then false
    else not (not (is_zero c.expires_at) && not (ltb_ℤ now c.expires_at))

-- The comparison given to `sort.SliceStable`.
abbrev pub expires_before : Credit → Credit → Bool
expires_before a b =
    if is_zero a.expires_at
    then false
    else if is_zero b.expires_at
    then true
    else ltb_ℤ a.expires_at b.expires_at

unfoldable pub available_credits_sorted : List Credit → Time → List Credit
available_credits_sorted credits now = sort_stable expires_before (select (is_usable now) credits)
