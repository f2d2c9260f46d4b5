-- ===== src/Config/Normal.antt =====
-- The normal form of a configuration.
use cpa_plugin_codex_auto_re.Prelude.{
  ◌≡◌, refl, ◌≢◌, ◌⊎◌, inl, inr, ◌≤ℤ◌, String, true, false, ◌||◌, List, [], ◌∷◌, arith, All, eq_iff,
  str_eq, if◌then◌else◌, Bool-cases, contains, Distinct, trim_space, trim_space_idem,
}
use cpa_plugin_codex_auto_re.Models.{minutes, Config}
use cpa_plugin_codex_auto_re.Config.{
  all_accounts_wildcard, config_enables_all, accounts_from, normalize_config,
}

-- A name without white space around it, and not empty.
abbrev pub IsName : String → Type 0
IsName a = (a ≢ "") × (trim_space a ≡ a)

pub record IsNormal (cfg : Config) : Type 0 where
  pub refresh : minutes 1 ≤ℤ cfg.refresh_interval
  pub lead : minutes 1 ≤ℤ cfg.trigger_lead_time
  pub distinct : Distinct cfg.enabled_accounts
  pub named : All IsName cfg.enabled_accounts
  pub sole :
      config_enables_all cfg.enabled_accounts ≡ true
      → cfg.enabled_accounts ≡ all_accounts_wildcard ∷ []

-- None of the names seen so far.
abbrev Fresh : List String → List String → Type 0
Fresh seen ks = All (λ k. contains k seen ≡ false) ks

Fresh-cons :
    (t : String) (seen ks : List String) → Fresh (t ∷ seen) ks → All (λ k. t ≢ k) ks × Fresh seen ks
Fresh-cons t seen [] h = (tt, tt)
Fresh-cons t seen (k ∷ ks) h =
    let (a, b) = Fresh-cons t seen ks h.1 in
    ((λ e. ground (arith, h.0, eq_iff t k, e), a), (ground (arith, h.0), b))

accounts_from-Fresh :
    (ids seen : List String)
    → let out = accounts_from seen ids in Distinct out × All IsName out × Fresh seen out
unfolding accounts_from
accounts_from-Fresh [] seen = (tt, tt, tt)
accounts_from-Fresh (a ∷ ids) seen =
    elim (Bool-cases (str_eq (trim_space a) "" || contains (trim_space a) seen)) [
      | inl t ↦ rw t (accounts_from-Fresh ids seen)
      | inr t ↦
          let (distinct, named, fresh) = accounts_from-Fresh ids (trim_space a ∷ seen) in
          let (apart, free) = Fresh-cons (trim_space a) seen _ fresh in
          let proper : trim_space a ≢ "" = λ e. ground (arith, t, eq_iff (trim_space a) "", e) in
          rw t ((apart, distinct), ((proper, trim_space_idem a), named), (ground (arith, t), free))
    ]

wildcard-alone :
    (out : List String)
    → Distinct out × All IsName out
    → let collapsed = if config_enables_all out then all_accounts_wildcard ∷ [] else out in
      Distinct collapsed
      × All IsName collapsed
      × (config_enables_all collapsed ≡ true → collapsed ≡ all_accounts_wildcard ∷ [])
unfolding trim_space
wildcard-alone out h = elim (Bool-cases (config_enables_all out)) [
  | inl t ↦ rw t ((tt, tt), ((λ e. ground (arith, eq_iff "*" "", e), refl), tt), λ e. refl)
  | inr t ↦ rw t (h.0, h.1, λ e. absurd (ground (arith, t, e)))
]

-- A normalised configuration has both intervals at a minute or more, and distinct, trimmed, non-empty
-- accounts, of which the wildcard is the only one where it is there.
pub normalize_config-IsNormal : (cfg : Config) → IsNormal (normalize_config cfg)
unfolding normalize_config
normalize_config-IsNormal cfg =
    let (distinct, named, fresh) = accounts_from-Fresh cfg.enabled_accounts [] in
    let (d, n, s) = wildcard-alone (accounts_from [] cfg.enabled_accounts) (distinct, named) in
    record { refresh = ground arith; lead = ground arith; distinct = d; named = n; sole = s }

Fresh-extend :
    (k : String) (seen ks : List String) → All (λ j. k ≢ j) ks → Fresh seen ks → Fresh (k ∷ seen) ks
Fresh-extend k seen [] h f = tt
Fresh-extend k seen (j ∷ ks) h f =
    (ground (arith, h.0, f.0, eq_iff k j), Fresh-extend k seen ks h.1 f.1)

accounts_from_id :
    (ks seen : List String)
    → Distinct ks
    → All IsName ks
    → Fresh seen ks
    → accounts_from seen ks ≡ ks
unfolding accounts_from
accounts_from_id [] seen d n f = refl
accounts_from_id (k ∷ ks) seen d n f =
    let kept : (str_eq (trim_space k) "" || contains (trim_space k) seen) ≡ false =
      rw n.0.1 (ground (arith, n.0.0, f.0, eq_iff k "")) in
    let rest = accounts_from_id ks (k ∷ seen) d.1 n.1 (Fresh-extend k seen ks d.0 f.1) in
    rw (kept, n.0.1, rest) refl

Fresh-nil : (ks : List String) → Fresh [] ks
Fresh-nil [] = tt
Fresh-nil (k ∷ ks) = (refl, Fresh-nil ks)

normalize_config_id : (cfg : Config) → IsNormal cfg → normalize_config cfg ≡ cfg
unfolding normalize_config
normalize_config_id cfg n =
    let same = accounts_from_id cfg.enabled_accounts [] n.distinct n.named (Fresh-nil _) in
    elim (Bool-cases (config_enables_all cfg.enabled_accounts)) [
      | inl t ↦ ground (arith, same, t, n.sole t, n.refresh, n.lead)
      | inr t ↦ ground (arith, same, t, n.refresh, n.lead)
    ]

-- Normalising a second time changes nothing, so a saved configuration survives any number of restarts.
pub normalize_config_idem :
    (cfg : Config) → normalize_config (normalize_config cfg) ≡ normalize_config cfg
normalize_config_idem cfg =
    normalize_config_id (normalize_config cfg) (normalize_config-IsNormal cfg)

accounts_from_keeps :
    (ids seen : List String) (a : String)
    → contains a ids ≡ true
    → trim_space a ≢ ""
    → (contains (trim_space a) seen ≡ true)
      ⊎ (contains (trim_space a) (accounts_from seen ids) ≡ true)
unfolding accounts_from
accounts_from_keeps [] seen a h n = absurd (ground arith)
accounts_from_keeps (b ∷ ids) seen a h n = elim (Bool-cases (str_eq b a)) [
  | inl t ↦
      let same : b ≡ a = (eq_iff b a).0 t in
      elim (Bool-cases (contains (trim_space a) seen)) [
        | inl u ↦ inl u
        | inr u ↦
            let kept : (str_eq (trim_space b) "" || contains (trim_space b) seen) ≡ false =
              rw same (ground (arith, u, n, eq_iff (trim_space a) "")) in
            inr (rw (kept, same) (ground (arith, eq_iff (trim_space a) (trim_space a))))
      ]
  | inr t ↦
      let later : contains a ids ≡ true = ground (arith, t, h) in
      elim (Bool-cases (str_eq (trim_space b) "" || contains (trim_space b) seen)) [
        | inl u ↦ rw u (accounts_from_keeps ids seen a later n)
        | inr u ↦ rw u (elim (accounts_from_keeps ids (trim_space b ∷ seen) a later n) [
          | inl c ↦ ground (arith, c)
          | inr c ↦ inr (ground (arith, c))
        ])
      ]
]

-- Each configured account that is more than white space is enabled afterwards, by its trimmed name or
-- by the wildcard.
pub normalize_config_keeps :
    (cfg : Config) (a : String)
    → contains a cfg.enabled_accounts ≡ true
    → trim_space a ≢ ""
    → let out = (normalize_config cfg).enabled_accounts in
      (out ≡ all_accounts_wildcard ∷ []) ⊎ (contains (trim_space a) out ≡ true)
unfolding normalize_config
normalize_config_keeps cfg a h n = elim (accounts_from_keeps cfg.enabled_accounts [] a h n) [
  | inl c ↦ absurd (ground arith)
  | inr c ↦ elim (Bool-cases (config_enables_all (accounts_from [] cfg.enabled_accounts))) [
    | inl t ↦ inl (rw t refl)
    | inr t ↦ inr (rw t c)
  ]
]
