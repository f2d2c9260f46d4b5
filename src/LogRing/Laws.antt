-- ===== src/LogRing/Laws.antt =====
-- The ring holds the newest entries of its history, in order.
use cpa_plugin_codex_auto_re.Prelude.{
  IsNewest, trimmed-IsNewest, ◌⊎◌, ◌≤◌, ℕ, ◌+◌, ◌-◌, ◌≡◌, refl, sym, ap, ◌∙◌, inl, inr, List, [],
  ◌∷◌, ◌++◌, length, drop, arith, ltb, Bool-cases, length-append, length-drop, drop-append,
  drop-drop,
}
use mathlib.Core.Path.{◌≡⟨◌⟩◌, ◌∎}
use mathlib.Core.List.{append_assoc, append-nil}
use cpa_plugin_codex_auto_re.Models.{LogEntry}
use cpa_plugin_codex_auto_re.LogRing.{LogRing, new_log_ring, newest, load, append, all}

unfoldable pub append_all : LogRing → List LogEntry → LogRing
append_all r [] = r
append_all r (e ∷ es) = append_all (append r e) es

newest-eq-drop : (n : ℕ) (es : List LogEntry) → newest n es ≡ drop (length es - n) es
newest-eq-drop n es = elim (Bool-cases (ltb n (length es))) [
  | inl e ↦ rw e
  | inr e ↦ let z : length es - n ≡ 0 = ground (arith, e) in rw (e, z)
]

newest-append : (n : ℕ) (xs ys : List LogEntry) → newest n (newest n xs ++ ys) ≡ newest n (xs ++ ys)
newest-append n xs ys =
    newest n (newest n xs ++ ys)
    ≡⟨ ap (λ zs. newest n (zs ++ ys)) (newest-eq-drop n xs) ⟩ newest n (drop a xs ++ ys)
    ≡⟨ newest-eq-drop n _ ⟩ drop b (drop a xs ++ ys)
    ≡⟨ ap (drop b) (sym (drop-append a xs ys (omega arith))) ⟩ drop b (drop a (xs ++ ys))
    ≡⟨ drop-drop b a (xs ++ ys) ⟩ drop (a + b) (xs ++ ys)
    ≡⟨ ap (λ k. drop k (xs ++ ys)) total ⟩ drop (length (xs ++ ys) - n) (xs ++ ys)
    ≡⟨ sym (newest-eq-drop n _) ⟩ newest n (xs ++ ys) ∎
  where
    a : ℕ
    a = length xs - n

    b : ℕ
    b = length (drop a xs ++ ys) - n

    total : a + b ≡ length (xs ++ ys) - n
    total = omega (arith, length-append (drop a xs) ys, length-append xs ys, length-drop a xs)

append_all-newest :
    (r : LogRing) (hist es : List LogEntry)
    → r.entries ≡ newest r.capacity hist
    → all (append_all r es) ≡ newest r.capacity (hist ++ es)
unfolding append_all all append
append_all-newest r hist [] h = rw append-nil h
append_all-newest r hist (e ∷ es) h =
    append_all-newest (append r e) (hist ++ e ∷ []) es
      (ap (λ zs. newest r.capacity (zs ++ e ∷ [])) h ∙ newest-append r.capacity hist (e ∷ []))
    ∙ ap (newest r.capacity) (append_assoc hist (e ∷ []) es)

-- The capacity that a ring asked for with `n` has.
abbrev pub IsCapacity : ℕ → ℕ → Type 0
IsCapacity n capacity = ((n ≡ 0) × (capacity ≡ 1)) ⊎ ((1 ≤ n) × (capacity ≡ n))

new_log_ring_capacity : (n : ℕ) → IsCapacity n (new_log_ring n).capacity
unfolding new_log_ring
new_log_ring_capacity n = ground arith

-- A ring restored from a saved log and appended to any number of times shows the end of the saved log
-- followed by the new entries: all of it, or as many entries as the capacity where there are more. The
-- capacity is the one asked for, but at least 1.
pub load-append_all :
    (n : ℕ) (saved es : List LogEntry)
    → (capacity : ℕ) × IsCapacity n capacity
      × IsNewest capacity (saved ++ es) (all (append_all (load (new_log_ring n) saved) es))
unfolding load
load-append_all n saved es =
    let r = new_log_ring n in
    let shown = append_all-newest (load r saved) saved es refl in
    (r.capacity, new_log_ring_capacity n, rw shown (trimmed-IsNewest r.capacity (saved ++ es)))
