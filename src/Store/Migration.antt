-- ===== src/Store/Migration.antt =====
-- `migrateStateFile`: state moves forward once, and never over a state that is there.
use Prim.Native.String.{◌++◌}
use cpa_plugin_codex_auto_re.Prelude.{
  ◌≡◌, ◌⊎◌, eq_iff, refl, sym, ◌∙◌, ap, inl, inr, String, Bool, true, false, ◌||◌, Option, none,
  some, arith, str_eq, lookup, erase, lookup-insert, lookup-erase, Option-cases, Bool-cases,
}
use cpa_plugin_codex_auto_re.Store.{PluginState}
use cpa_plugin_codex_auto_re.Store.Disk.{Disk, read_file, rename, exists}
use cpa_plugin_codex_auto_re.Store.File.{save_state, migrate_state_file, migrate_parsed}
use cpa_plugin_codex_auto_re.Store.Recovery.{content, save_state_atomic}

module _ (marshal : PluginState → Option String) (unmarshal : String → Option PluginState) where
  abbrev migrate : String → String → Disk → Bool × Disk
  migrate src dst d = migrate_state_file marshal unmarshal src dst d

  -- A state file that is there already is neither replaced nor changed.
  pub migrate_state_file-existing :
      (src dst b : String) (d : Disk)
      → content dst d ≡ some b
      → ((migrate src dst d).0 ≡ false) × (content dst (migrate src dst d).1 ≡ some b)
  unfolding migrate_state_file read_file
  migrate_state_file-existing src dst b d h = ground (arith, h)

  -- What `dst` held before the source was moved away, unless it is the name the source was moved to.
  still-there :
      (src dst raw : String) (d : Disk)
      → str_eq src dst ≡ false
      → content dst d ≡ some raw
      → (str_eq (src ++ ".migrated") dst ≡ true)
        ⊎ (content dst (rename src (src ++ ".migrated") d).1 ≡ some raw)
  unfolding rename
  still-there src dst raw d n h = elim (Bool-cases (str_eq (src ++ ".migrated") dst)) [
    | inl t ↦ inl t
    | inr t ↦ inr (elim (Option-cases (lookup src d.files)) [
      | inl e ↦ ground (arith, e, h)
      | inr (b, e) ↦
          let at = lookup-insert (src ++ ".migrated") dst b (erase src d.files) in
          let kept = lookup-erase src dst d.files in ground (arith, e, h, n, t, at, kept)
    ])
  ]

  still-exists :
      (src dst : String) (d : Disk)
      → str_eq src dst ≡ false
      → exists dst d ≡ true
      → exists dst (rename src (src ++ ".migrated") d).1 ≡ true
  unfolding rename
  still-exists src dst d n h = elim (Option-cases (lookup src d.files)) [
    | inl e ↦ ground (arith, e, h)
    | inr (b, e) ↦
        let at = lookup-insert (src ++ ".migrated") dst b (erase src d.files) in
        let kept = lookup-erase src dst d.files in ground (arith, e, h, n, at, kept)
  ]

  -- The outcome of a migration behind its guards.
  parsed-migrated :
      (src dst : String) (d : Disk) (o : Option PluginState)
      → str_eq src dst ≡ false
      → (migrate_parsed marshal unmarshal src dst o d).0 ≡ true
      → ((s : PluginState) × (raw : String) × (o ≡ some s)
          × (marshal s ≡ some raw)
          × (exists dst (migrate_parsed marshal unmarshal src dst o d).1 ≡ true)
          × ((str_eq (src ++ ".migrated") dst ≡ true)
              ⊎ (content dst (migrate_parsed marshal unmarshal src dst o d).1 ≡ some raw)))
  parsed-migrated src dst d none n h = absurd (ground (arith, h))
  parsed-migrated src dst d (some s) n h =
      let mid = save_state marshal unmarshal dst s d in
      elim (save_state_atomic marshal unmarshal dst s d) [
        | inl (e, c) ↦ absurd (ground (arith, e, h))
        | inr (e, (raw, m, c)) ↦ (
          s,
          raw,
          refl,
          m,
          rw e (still-exists src dst mid.1 n (ground (arith, c))),
          rw e (still-there src dst raw mid.1 n c),
        )
      ]

  -- A migration that succeeds got past its guards.
  migrate-guarded :
      (src dst : String) (d : Disk)
      → (migrate src dst d).0 ≡ true
      → (str_eq src dst ≡ false)
        × ((raw : String) × (content src d ≡ some raw)
            × (content dst d ≡ none)
            × (migrate src dst d ≡ migrate_parsed marshal unmarshal src dst (unmarshal raw) d))
  unfolding migrate_state_file read_file
  migrate-guarded src dst d h =
      elim (Bool-cases (str_eq src "" || str_eq dst "" || str_eq src dst)) [
        | inl t ↦ absurd (ground (arith, h, t))
        | inr t ↦ elim (Option-cases (content src d)) [
          | inl e ↦ absurd (ground (arith, h, t, e))
          | inr (raw, e) ↦ elim (Option-cases (content dst d)) [
            | inl n ↦ (ground (arith, t), (raw, e, n, ground (arith, h, t, e, n)))
            | inr (b, n) ↦ absurd (ground (arith, h, t, e, n))
          ]
        ]
      ]

  exists-content :
      (path : String) (d : Disk) → exists path d ≡ true → (b : String) × (content path d ≡ some b)
  exists-content path d h = elim (Option-cases (content path d)) [
    | inl e ↦ absurd (ground (arith, h, e))
    | inr found ↦ found
  ]

  -- A migration that reports success read a state that parses from a file that is there; `dst` held
  -- nothing, and now holds that state, encoded, unless it is the name to which the source is moved away.
  -- The next migration with the same names reports that there is nothing to move.
  pub migrate_state_file_once :
      (src dst : String) (d : Disk)
      → (migrate src dst d).0 ≡ true
      → (content dst d ≡ none)
        × ((old : String) × (s : PluginState) × (new : String) × (content src d ≡ some old)
            × (unmarshal old ≡ some s)
            × (marshal s ≡ some new)
            × ((src ++ ".migrated" ≡ dst) ⊎ (content dst (migrate src dst d).1 ≡ some new)))
        × ((migrate src dst (migrate src dst d).1).0 ≡ false)
  migrate_state_file_once src dst d h =
      let (apart, (old, e, n, step)) = migrate-guarded src dst d h in
      let (s, new, u, m, there, holds) =
        parsed-migrated src dst d (unmarshal old) apart (ap (λ r. r.0) (sym step) ∙ h) in
      let (b, held) =
        exists-content dst (migrate src dst d).1 (ap (λ r. exists dst r.1) step ∙ there) in
      let now : (src ++ ".migrated" ≡ dst) ⊎ (content dst (migrate src dst d).1 ≡ some new) =
        elim holds [
          | inl t ↦ inl ((eq_iff (src ++ ".migrated") dst).0 t)
          | inr c ↦ inr (ap (λ r. content dst r.1) step ∙ c)
        ] in
      (
        n,
        (old, s, new, e, u, m, now),
        (migrate_state_file-existing src dst b (migrate src dst d).1 held).0,
      )
