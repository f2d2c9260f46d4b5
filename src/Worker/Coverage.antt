-- ===== src/Worker/Coverage.antt =====
-- `retryMissingFSMs`: every enabled account is served or has a time at which it is tried again.
use cpa_plugin_codex_auto_re.Prelude.{
  ◌≡◌, refl, sym, ◌∙◌, ap, ◌⊎◌, inl, inr, String, some, List, [], ◌∷◌, arith, for_each, lookup,
  insert, erase, lookup-insert, lookup-erase, Option-cases, Bool-cases, true, str_eq, eq_iff, ◌+ℤ◌,
}
use cpa_plugin_codex_auto_re.Models.{Time, CodexCredentials, credential_retry_interval}
use cpa_plugin_codex_auto_re.Client.{Result, ok, err}
use cpa_plugin_codex_auto_re.Fsm.Machine.{AccountFsm, new_account_fsm, set_next_wake}
use cpa_plugin_codex_auto_re.Worker.State.{Worker, Running, Host, lift, clock}
use cpa_plugin_codex_auto_re.Worker.Accounts.{
  has, waits, due_missing, ensure_loaded, ensure_fsm, retry_missing_fsms,
}

-- The account has a state machine, or a time for the next try.
abbrev pub IsCovered : Worker → String → Type 0
IsCovered w id =
    ((fsm : AccountFsm) × (lookup id w.fsms ≡ some fsm))
    ⊎ ((at : Time) × (lookup id w.missing_retry_at ≡ some at))

-- One of the identifiers.
abbrev pub Listed : String → List String → Type 0
Listed j [] = ⊥
Listed j (id ∷ ids) = (id ≡ j) ⊎ Listed j ids

has-lookup :
    (id j : String) (fs : List (String × AccountFsm))
    → has id fs ≡ true
    → id ≡ j
    → (fsm : AccountFsm) × (lookup j fs ≡ some fsm)
has-lookup id j fs h e = elim (Option-cases (lookup id fs)) [
  | inl n ↦ absurd (ground (arith, h, n))
  | inr (fsm, l) ↦ (fsm, ap (λ k. lookup k fs) (sym e) ∙ l)
]

inserted :
    (id j : String) (fsm : AccountFsm) (w : Worker)
    → (id ≡ j) ⊎ IsCovered w j
    → IsCovered
        (record w { fsms = insert id fsm w.fsms; missing_retry_at = erase id w.missing_retry_at })
        j
inserted id j fsm w h = elim (Bool-cases (str_eq id j)) [
  | inl t ↦ inl (fsm, lookup-insert id j fsm w.fsms ∙ rw t refl)
  | inr t ↦ elim h [
    | inl e ↦ absurd (ground (arith, t, e, eq_iff id j))
    | inr c ↦ elim c [
      | inl (g, e) ↦ inl (g, lookup-insert id j fsm w.fsms ∙ rw t e)
      | inr (at, e) ↦ inr (at, lookup-erase id j w.missing_retry_at ∙ rw t e)
    ]
  ]
]

module _ {H : Type 0} (host : Host H) where
  waiting :
      (id j : String) (now : Time) (m : List (String × Time))
      → waits host now (lookup id m) ≡ true
      → id ≡ j
      → (at : Time) × (lookup j m ≡ some at)
  waiting id j now m h e = elim (Option-cases (lookup id m)) [
    | inl n ↦ absurd (ground (arith, h, n))
    | inr (at, l) ↦ (at, ap (λ k. lookup k m) (sym e) ∙ l)
  ]

  ensure_loaded-IsCovered :
      (id j : String) (r : Result CodexCredentials) (s : Running H)
      → (id ≡ j) ⊎ IsCovered s.worker j
      → IsCovered (ensure_loaded host id r s).1.worker j
  unfolding ensure_loaded
  ensure_loaded-IsCovered id j (err e) s h =
      let at = (host.now s.out.host).0 +ℤ credential_retry_interval in
      elim (Bool-cases (str_eq id j)) [
        | inl t ↦ inr (at, lookup-insert id j at s.worker.missing_retry_at ∙ rw t refl)
        | inr t ↦ elim h [
          | inl e ↦ absurd (ground (arith, t, e, eq_iff id j))
          | inr (inl c) ↦ inl c
          | inr (inr (u, e)) ↦ inr (u, lookup-insert id j at s.worker.missing_retry_at ∙ rw t e)
        ]
      ]
  ensure_loaded-IsCovered id j (ok creds) s h =
      let fsm = set_next_wake (host.now s.out.host).0 (new_account_fsm id creds s.worker.cfg) in
      elim (Bool-cases (has id s.worker.fsms)) [
        | inl t ↦ rw t (elim h [ inl e ↦ inl (has-lookup id j s.worker.fsms t e) | inr c ↦ c ])
        | inr t ↦ rw t (inserted id j fsm s.worker h)
      ]

  ensure_fsm-IsCovered :
      (id j : String) (s : Running H)
      → (id ≡ j) ⊎ IsCovered s.worker j
      → IsCovered (ensure_fsm host id s).1.worker j
  unfolding ensure_fsm
  ensure_fsm-IsCovered id j s h = elim (Bool-cases (has id s.worker.fsms)) [
    | inl t ↦ rw t (elim h [ inl e ↦ inl (has-lookup id j s.worker.fsms t e) | inr c ↦ c ])
    | inr t ↦ rw t (
        ensure_loaded-IsCovered id j (host.load_creds id s.out.host).0
          (lift (host.load_creds id) s).1 h)
  ]

  for_each-IsCovered :
      (ids : List String) (j : String) (s : Running H)
      → Listed j ids ⊎ IsCovered s.worker j
      → IsCovered (for_each ids (ensure_fsm host) s).1.worker j
  unfolding for_each
  for_each-IsCovered [] j s h = elim h [ inl e ↦ absurd e | inr c ↦ c ]
  for_each-IsCovered (id ∷ ids) j s h = for_each-IsCovered ids j (ensure_fsm host id s).1 (elim h [
    | inl (inl e) ↦ inr (ensure_fsm-IsCovered id j s (inl e))
    | inl (inr i) ↦ inl i
    | inr c ↦ inr (ensure_fsm-IsCovered id j s (inr c))
  ])

  due_or_IsCovered :
      (now : Time) (w : Worker) (ids : List String) (j : String)
      → Listed j ids
      → Listed j (due_missing host now w ids) ⊎ IsCovered w j
  due_or_IsCovered now w [] j h = absurd h
  due_or_IsCovered now w (id ∷ ids) j h = elim (Bool-cases (has id w.fsms)) [
    | inl t ↦ rw t (elim h [
      | inl e ↦ inr (inl (has-lookup id j w.fsms t e))
      | inr i ↦ due_or_IsCovered now w ids j i
    ])
    | inr t ↦ elim (Bool-cases (waits host now (lookup id w.missing_retry_at))) [
      | inl u ↦
          rw (t, u)
            (elim h [
              | inl e ↦ inr (inr (waiting id j now w.missing_retry_at u e))
              | inr i ↦ due_or_IsCovered now w ids j i
            ])
      | inr u ↦
          rw (t, u)
            (elim h [
              | inl e ↦ inl (inl e)
              | inr i ↦ elim (due_or_IsCovered now w ids j i) [
                | inl k ↦ inl (inr k)
                | inr c ↦ inr c
              ]
            ])
    ]
  ]

  -- After `retryMissingFSMs`, whatever the credential loader answers, each enabled account has a state
  -- machine, or a time at which it is tried again: none is given up for good.
  pub retry_missing_fsms-IsCovered :
      (s : Running H) (j : String)
      → Listed j s.worker.resolved_enabled
      → IsCovered (retry_missing_fsms host s).1.worker j
  unfolding retry_missing_fsms
  retry_missing_fsms-IsCovered s j h =
      let now = (host.now s.out.host).0 in
      for_each-IsCovered (due_missing host now s.worker s.worker.resolved_enabled) j
        (clock host s).1 (due_or_IsCovered now s.worker s.worker.resolved_enabled j h)
