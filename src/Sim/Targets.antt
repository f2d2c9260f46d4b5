-- ===== src/Sim/Targets.antt =====
-- Both programs see the same credits: the plugin filters and sorts the list that the simulator's client
-- has sorted, and finds the targets that the simulator finds.
use cpa_plugin_codex_auto_re.Prelude.{
  ◌≡◌, refl, ap, ◌∙◌, inl, inr, String, Bool, true, false, List, [], ◌∷◌, select, All, str_eq,
  eq_iff, Bool-cases, IsSortedBy, NotAfter, sort_stable, sort_stable_id, select-IsSortedBy, arith,
}
use cpa_plugin_codex_auto_re.Models.{Time, Credit}
use cpa_plugin_codex_auto_re.Models.Credits.{is_usable, expires_before, available_credits_sorted}
use cpa_plugin_codex_auto_re.Fsm.Confirm.{find_by_id, or_empty, head?}
use cpa_plugin_codex_auto_re.Fsm.Verify.{target_gone}
use cpa_plugin_codex_auto_re.Sim.{Server, credit_rows, list_snapshot, is_unexpired, is_available}
use cpa_plugin_codex_auto_re.Sim.Tools.{pick_sim_target, find_sim_target, sim_target_gone}

abbrev pub Passes : (Credit → Bool) → List Credit → Type 0
Passes p cs = All (λ c. p c ≡ true) cs

-- What `sort.Slice` promises: the result is in order, and no element is new.
pub record IsSort (sort : List Credit → List Credit) : Type 0 where
  pub ordered : (cs : List Credit) → IsSortedBy (NotAfter expires_before) (sort cs)
  pub keeps : (p : Credit → Bool) (cs : List Credit) → Passes p cs → Passes p (sort cs)

select-usable :
    (now : Time) (cs : List Credit)
    → Passes (is_unexpired now) cs
    → select (is_usable now) cs ≡ select is_available cs
select-usable now [] h = refl
select-usable now (c ∷ cs) h = ground (arith, h.0, select-usable now cs h.1)

pub available_credits_sorted-ordered :
    (now : Time) (cs : List Credit)
    → IsSortedBy (NotAfter expires_before) cs
    → Passes (is_unexpired now) cs
    → available_credits_sorted cs now ≡ select is_available cs
unfolding available_credits_sorted
available_credits_sorted-ordered now cs s h =
    ap (sort_stable expires_before) (select-usable now cs h)
    ∙ sort_stable_id expires_before (select is_available cs)
        (select-IsSortedBy (NotAfter expires_before) is_available cs s)

pub pick_sim_target_lem : (cs : List Credit) → pick_sim_target cs ≡ head? (select is_available cs)
unfolding pick_sim_target
pick_sim_target_lem [] = refl
pick_sim_target_lem (c ∷ cs) = ground (arith, pick_sim_target_lem cs)

pub find_sim_target_lem :
    (id : String) (cs : List Credit)
    → find_sim_target id cs ≡ or_empty (find_by_id id (select is_available cs))
unfolding find_sim_target
find_sim_target_lem id [] = refl
find_sim_target_lem id (c ∷ cs) = ground (arith, find_sim_target_lem id cs)

pub sim_target_gone_lem :
    (id : String) (cs : List Credit) → sim_target_gone id cs ≡ target_gone id cs
unfolding sim_target_gone target_gone
sim_target_gone_lem id [] = refl
sim_target_gone_lem id (c ∷ cs) = ground (arith, sim_target_gone_lem id cs)

-- A target that was found has the identifier that was looked for.
pub find_sim_target-id :
    (id : String) (cs : List Credit)
    → str_eq (find_sim_target id cs).id "" ≡ false
    → (find_sim_target id cs).id ≡ id
unfolding find_sim_target
find_sim_target-id id [] h = ground (arith, eq_iff "" "")
find_sim_target-id id (c ∷ cs) h = ground (arith, find_sim_target-id id cs, eq_iff c.id id)

select-Passes :
    (now : Time) (cs : List Credit) → Passes (is_unexpired now) (select (is_unexpired now) cs)
select-Passes now [] = tt
select-Passes now (c ∷ cs) = elim (Bool-cases (is_unexpired now c)) [
  | inl e ↦ rw e (e, select-Passes now cs)
  | inr e ↦ rw e (select-Passes now cs)
]

-- The list of the simulator's client, as the plugin filters and sorts it.
pub list_snapshot-available :
    (sort : List Credit → List Credit)
    → IsSort sort
    → (now : Time) (s : Server)
    → let cs = (list_snapshot sort now s).credits in
      available_credits_sorted cs now ≡ select is_available cs
unfolding list_snapshot
list_snapshot-available sort is now s =
    let rows = select (is_unexpired now) (credit_rows s.credits) in
    available_credits_sorted-ordered now (sort rows) (is.ordered rows)
      (is.keeps (is_unexpired now) rows (select-Passes now (credit_rows s.credits)))
