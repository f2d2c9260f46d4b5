-- ===== src/Store/Recovery.antt =====
-- What survives of the state: saves that fail, files that are damaged, and moves of the state file.
use Prim.Native.String.{◌++◌, len}
use text.Mathlib.TextPositions.{len-append}
use cpa_plugin_codex_auto_re.Prelude.{
  ℕ, zero, suc, ◌≤◌, ◌≡◌, refl, ap, ◌⊎◌, inl, inr, String, true, false, Option, none, some, arith,
  eq_iff, str_eq, lookup, insert, erase, lookup-insert, lookup-insert_self, Option-cases,
  Bool-cases,
}
use cpa_plugin_codex_auto_re.Store.{PluginState}
use cpa_plugin_codex_auto_re.Store.Disk.{Disk, found, read_file, write_file, rename}
use cpa_plugin_codex_auto_re.Store.File.{
  read_state_file, loaded, save_state, load_state, fresh_state,
}

longer : (s t : String) → 1 ≤ len t → str_eq (s ++ t) s ≡ false
longer s t h = elim (Bool-cases (str_eq (s ++ t) s)) [
  | inl e ↦
      let same : len (s ++ t) ≡ len s = ap len ((eq_iff (s ++ t) s).0 e) in
      absurd (omega (arith, same, len-append s t, h))
  | inr e ↦ e
]

-- Two names that differ in length behind a common beginning.
other : (s t u : String) → suc (len t) ≤ len u → str_eq (s ++ u) (s ++ t) ≡ false
other s t u h = elim (Bool-cases (str_eq (s ++ u) (s ++ t))) [
  | inl e ↦
      let same : len (s ++ u) ≡ len (s ++ t) = ap len ((eq_iff (s ++ u) (s ++ t)).0 e) in
      absurd (omega (arith, same, len-append s t, len-append s u, h))
  | inr e ↦ e
]

-- Fewer passing failures than attempts.
abbrev pub Readable : Disk → Type 0
Readable d = d.failing ≤ 2

-- What the file holds.
abbrev pub content : String → Disk → Option String
content path d = lookup path d.files

settled-found :
    (n : ℕ) (path : String) (d : Disk)
    → n ≤ 2
    → read_state_file path (record d { failing = n })
      ≡ (found (content path d), record d { failing = 0 })
unfolding read_state_file read_file
settled-found zero path d h = ground (arith, Option-cases (content path d))
settled-found (suc zero) path d h = ground (arith, Option-cases (content path d))
settled-found (suc (suc zero)) path d h = ground (arith, Option-cases (content path d))
settled-found (suc (suc (suc n))) path d h = absurd (omega arith)

read_state_file_lem :
    (path : String) (d : Disk)
    → Readable d
    → read_state_file path d ≡ (found (content path d), record d { failing = 0 })
read_state_file_lem path d h = settled-found d.failing path d h

module _ (marshal : PluginState → Option String) (unmarshal : String → Option PluginState) where
  -- A save, whether it succeeds or fails half way, leaves the state file as it was or holding the whole
  -- new state; it reports success only in the second case.
  pub save_state_atomic :
      (path : String) (s : PluginState) (d : Disk)
      → let (saved, after) = save_state marshal unmarshal path s d in
        ((saved ≡ false) × (content path after ≡ content path d))
        ⊎ ((saved ≡ true)
            × ((raw : String) × (marshal s ≡ some raw) × (content path after ≡ some raw)))
  unfolding save_state write_file rename
  save_state_atomic path s d =
      let tmp = path ++ ".tmp" in
      let apart = longer path ".tmp" (omega arith) in
      elim (Option-cases (marshal s)) [
        | inl m ↦ ground (arith, m)
        | inr (raw, m) ↦ elim (Option-cases d.full) [
          | inl f ↦ ground (
            arith,
            m,
            f,
            lookup-insert_self tmp raw d.files,
            lookup-insert_self path raw (erase tmp (insert tmp raw d.files)),
          )
          | inr (part, f) ↦ ground (arith, m, f, apart, lookup-insert tmp path part d.files)
        ]
      ]

  pub save_state_failing :
      (path : String) (s : PluginState) (d : Disk)
      → (save_state marshal unmarshal path s d).1.failing ≡ d.failing
  unfolding save_state write_file rename
  save_state_failing path s d = ground arith

  pub load_state_main :
      (stamp path raw : String) (s : PluginState) (d : Disk)
      → content path d ≡ some raw
      → unmarshal raw ≡ some s
      → Readable d
      → load_state marshal unmarshal stamp path d
        ≡ (loaded s "main", (write_file (path ++ ".bak") raw (record d { failing = 0 })).1)
  unfolding load_state
  load_state_main stamp path raw s d c u h = rw (read_state_file_lem path d h, c, u) refl

  -- A state that was saved and that the decoder reads back as it was is what the next load returns, from
  -- the main file, in spite of up to two passing read errors.
  pub save_state-load_state :
      (stamp path : String) (s : PluginState) (raw : String) (d : Disk)
      → marshal s ≡ some raw
      → unmarshal raw ≡ some s
      → Readable d
      → (save_state marshal unmarshal path s d).0 ≡ true
      → (load_state marshal unmarshal stamp path (save_state marshal unmarshal path s d).1).0
        ≡ loaded s "main"
  unfolding load_state
  save_state-load_state stamp path s raw d m u h k =
      let after = (save_state marshal unmarshal path s d).1 in
      elim (save_state_atomic path s d) [
        | inl (e, c) ↦ absurd (ground (arith, e, k))
        | inr (e, (raw', m', c)) ↦
            let same : raw ≡ raw' = ground (arith, m, m') in
            let still : Readable after = ground (arith, save_state_failing path s d, h) in
            ap (λ r. r.0) (load_state_main stamp path raw s after (ground (arith, c, same)) u still)
      ]

  -- A state file that does not parse is kept under another name, and the load goes on with the backup,
  -- if that parses, and with an empty state otherwise; it never fails.
  pub load_state-corrupt :
      (stamp path raw : String) (d : Disk)
      → content path d ≡ some raw
      → unmarshal raw ≡ none
      → Readable d
      → d.full ≡ none
      → let (r, after) = load_state marshal unmarshal stamp path d in
        (content (path ++ (".corrupt-" ++ stamp)) after ≡ some raw)
        × (content path after ≡ some raw)
        × (((b : String) (s : PluginState)
            → content (path ++ ".bak") d ≡ some b
            → unmarshal b ≡ some s
            → r ≡ loaded s "corrupt-main,backup"))
        × (content (path ++ ".bak") d ≡ none
            → r ≡ loaded fresh_state "corrupt-main,fresh-after-corrupt")
  unfolding load_state write_file read_file
  load_state-corrupt stamp path raw d c u h f =
      let away = path ++ (".corrupt-" ++ stamp) in
      let main = longer path (".corrupt-" ++ stamp) (omega (arith, len-append ".corrupt-" stamp)) in
      let backup =
        other path ".bak" (".corrupt-" ++ stamp) (omega (arith, len-append ".corrupt-" stamp)) in
      rw (read_state_file_lem path d h, c, u)
        (
          ground (arith, f, lookup-insert_self away raw d.files),
          ground (arith, f, c, main, lookup-insert away path raw d.files),
          λ b s k v.
              ground (arith, f, k, v, backup, lookup-insert away (path ++ ".bak") raw d.files),
          λ k. ground (arith, f, k, backup, lookup-insert away (path ++ ".bak") raw d.files),
        )

  -- A state file damaged after a load, by whatever bytes that do not parse, costs nothing that the load
  -- had seen: the next load returns the same state from the backup.
  pub load_state-recovers :
      (stamp stamp' path raw garbage : String) (s : PluginState) (d : Disk)
      → content path d ≡ some raw
      → unmarshal raw ≡ some s
      → unmarshal garbage ≡ none
      → Readable d
      → d.full ≡ none
      → let after = (load_state marshal unmarshal stamp path d).1 in
        let damaged = record after { files = insert path garbage after.files } in
        (load_state marshal unmarshal stamp' path damaged).0 ≡ loaded s "corrupt-main,backup"
  unfolding write_file
  load_state-recovers stamp stamp' path raw garbage s d c u g h f =
      let bak = path ++ ".bak" in
      let after = (load_state marshal unmarshal stamp path d).1 in
      let damaged : Disk = record after { files = insert path garbage after.files } in
      let first = load_state_main stamp path raw s d c u h in
      let writable : damaged.full ≡ none = rw first (ground (arith, f)) in
      let calm : Readable damaged = rw first (ground (arith, f)) in
      let backed : content bak damaged ≡ some raw = rw first (
        ground (
          arith,
          f,
          lookup-insert path bak garbage (insert bak raw d.files),
          lookup-insert_self bak raw d.files,
          longer path ".bak" (omega arith),
          eq_iff path bak,
          eq_iff bak path,
        )) in
      let (_, _, recovers, _) =
        load_state-corrupt stamp' path garbage damaged (lookup-insert_self path garbage after.files)
          g calm writable in
      recovers raw s backed u
