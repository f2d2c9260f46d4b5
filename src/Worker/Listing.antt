-- ===== src/Worker/Listing.antt =====
-- `EachFSM` of worker.go: which state machines its callback sees, and in which order.
use cpa_plugin_codex_auto_re.Prelude.{
  ◌≡◌, refl, sym, ◌∙◌, ap, ◌≢◌, String, some, none, List, [], ◌∷◌, map, length, All, arith, lookup,
  insert, lookup-insert, eq_iff, sort_stable, Distinct, sort_stable-length, sort_stable-Pairwise,
}
use cpa_plugin_codex_auto_re.Fsm.Machine.{AccountFsm}
use cpa_plugin_codex_auto_re.Worker.State.{Worker}
use cpa_plugin_codex_auto_re.Worker.Accounts.{str_less}

-- The values of the keys that the map has.
abbrev pub collect : List String → List (String × AccountFsm) → List AccountFsm
collect [] m = []
collect (k ∷ ks) m = elim (lookup k m) [ none ↦ collect ks m | some v ↦ v ∷ collect ks m ]

-- `byKey`: the i-th key with the i-th machine, for as many as there are machines.
abbrev pub pair_up :
    List String → List AccountFsm → List (String × AccountFsm) → List (String × AccountFsm)
pair_up [] xs m = m
pair_up (k ∷ ks) [] m = m
pair_up (k ∷ ks) (x ∷ xs) m = pair_up ks xs (insert k x m)

-- The arguments of the callback, in order.
unfoldable pub each_fsm : Worker → List AccountFsm
each_fsm w =
    let keys = map (λ e. e.0) w.fsms in
    let snap = collect keys w.fsms in
    let sorted = sort_stable str_less keys in collect sorted (pair_up sorted snap [])

collect-skip :
    (k : String) (v : AccountFsm) (ks : List String) (m : List (String × AccountFsm))
    → All (λ j. k ≢ j) ks
    → collect ks ((k, v) ∷ m) ≡ collect ks m
collect-skip k v [] m h = refl
collect-skip k v (j ∷ ks) m h = ground (arith, eq_iff k j, h.0, collect-skip k v ks m h.1)

collect_all :
    (m : List (String × AccountFsm))
    → Distinct (map (λ e. e.0) m)
    → collect (map (λ e. e.0) m) m ≡ map (λ e. e.1) m
collect_all [] d = refl
collect_all ((k, v) ∷ m) d =
    ground (arith, eq_iff k k, collect-skip k v (map (λ e. e.0) m) m d.0, collect_all m d.1)

lookup-pair_up :
    (j : String) (ks : List String) (xs : List AccountFsm) (m : List (String × AccountFsm))
    → All (λ k. j ≢ k) ks
    → lookup j (pair_up ks xs m) ≡ lookup j m
lookup-pair_up j [] xs m h = refl
lookup-pair_up j (k ∷ ks) [] m h = refl
lookup-pair_up j (k ∷ ks) (x ∷ xs) m h =
    lookup-pair_up j ks xs (insert k x m) h.1
    ∙ lookup-insert k j x m
    ∙ ground (arith, eq_iff k j, h.0)

collect-pair_up :
    (ks : List String) (xs : List AccountFsm) (m : List (String × AccountFsm))
    → Distinct ks
    → length ks ≡ length xs
    → collect ks (pair_up ks xs m) ≡ xs
collect-pair_up [] [] m d e = refl
collect-pair_up [] (x ∷ xs) m d e = absurd (ground arith)
collect-pair_up (k ∷ ks) [] m d e = absurd (ground arith)
collect-pair_up (k ∷ ks) (x ∷ xs) m d e =
    let found = lookup-pair_up k ks xs (insert k x m) d.0 ∙ lookup-insert k k x m in
    ground (arith, found, eq_iff k k, collect-pair_up ks xs (insert k x m) d.1 (omega arith))

-- The callback sees each state machine of the worker once, in the order in which `range` happens to
-- visit the map: the sorting of the keys has no effect on it.
pub each_fsm_order :
    (w : Worker) → Distinct (map (λ e. e.0) w.fsms) → each_fsm w ≡ map (λ e. e.1) w.fsms
unfolding each_fsm
each_fsm_order w d =
    let keys = map (λ e. e.0) w.fsms in
    collect-pair_up (sort_stable str_less keys) (collect keys w.fsms) []
      (sort_stable-Pairwise str_less (λ j k h e. h (sym e)) keys d)
      (sort_stable-length str_less keys ∙ lengths w.fsms ∙ ap length (sym (collect_all w.fsms d)))
    ∙ collect_all w.fsms d
  where
    lengths :
        (m : List (String × AccountFsm)) → length (map (λ e. e.0) m) ≡ length (map (λ e. e.1) m)
    lengths [] = refl
    lengths (e ∷ m) = ground (arith, lengths m)
