-- ===== src/History/Backfill.antt =====
-- The history after a restart: no reset twice, none forgotten, and nothing new at the next restart.
use cpa_plugin_codex_auto_re.Prelude.{
  ◌≡◌, refl, sym, ◌≢◌, ◌∙◌, ap, ◌⊎◌, inl, inr, String, true, false, ◌||◌, Option, none, some, List,
  [], ◌∷◌, map, All, arith, eq_iff, str_eq, Bool-cases, contains, Distinct,
}
use cpa_plugin_codex_auto_re.Models.{Time, Message, LogEntry, ResetRecord}
use cpa_plugin_codex_auto_re.History.{
  record_key, collapse_from, record_of, add_missing, backfill_logs,
}
use cpa_plugin_codex_auto_re.History.Keys.{contains-snoc, Distinct-snoc}

module _ (format : Time → String) (render : Message → String) where
  abbrev key : ResetRecord → String
  key r = record_key format render r

  -- The keys of a history.
  abbrev pub keys : List ResetRecord → List String
  keys rs = map key rs

  -- None of the records' keys is among those seen so far.
  abbrev Unseen : List String → List ResetRecord → Type 0
  Unseen seen rs = All (λ r. contains (key r) seen ≡ false) rs

  Unseen-cons :
      (t : String) (seen : List String) (rs : List ResetRecord)
      → Unseen (t ∷ seen) rs
      → All (λ k. t ≢ k) (keys rs) × Unseen seen rs
  Unseen-cons t seen [] h = (tt, tt)
  Unseen-cons t seen (r ∷ rs) h =
      let (a, b) = Unseen-cons t seen rs h.1 in
      ((λ e. ground (arith, h.0, eq_iff t (key r), e), a), (ground (arith, h.0), b))

  pub collapse_from-Unseen :
      (rs : List ResetRecord) (seen : List String)
      → let out = collapse_from format render seen rs in Distinct (keys out) × Unseen seen out
  unfolding collapse_from
  collapse_from-Unseen [] seen = (tt, tt)
  collapse_from-Unseen (r ∷ rs) seen = elim (Bool-cases (contains (key r) seen)) [
    | inl t ↦ rw t (collapse_from-Unseen rs seen)
    | inr t ↦
        let (distinct, fresh) = collapse_from-Unseen rs (key r ∷ seen) in
        let (apart, free) = Unseen-cons (key r) seen _ fresh in rw t ((apart, distinct), (t, free))
  ]

  Unseen-extend :
      (k : String) (seen : List String) (rs : List ResetRecord)
      → All (λ j. k ≢ j) (keys rs)
      → Unseen seen rs
      → Unseen (k ∷ seen) rs
  Unseen-extend k seen [] h f = tt
  Unseen-extend k seen (r ∷ rs) h f =
      (ground (arith, h.0, f.0, eq_iff k (key r)), Unseen-extend k seen rs h.1 f.1)

  pub collapse_from_id :
      (rs : List ResetRecord) (seen : List String)
      → Distinct (keys rs)
      → Unseen seen rs
      → collapse_from format render seen rs ≡ rs
  unfolding collapse_from
  collapse_from_id [] seen d f = refl
  collapse_from_id (r ∷ rs) seen d f =
      rw (f.0, collapse_from_id rs (key r ∷ seen) d.1 (Unseen-extend (key r) seen rs d.0 f.1)) refl

  pub collapse_from_keeps :
      (rs : List ResetRecord) (seen : List String) (k : String)
      → contains k (keys rs) ≡ true
      → (contains k seen ≡ true) ⊎ (contains k (keys (collapse_from format render seen rs)) ≡ true)
  unfolding collapse_from
  collapse_from_keeps [] seen k h = absurd (ground arith)
  collapse_from_keeps (r ∷ rs) seen k h = elim (Bool-cases (contains (key r) seen)) [
    | inl t ↦
        let same : str_eq (key r) k ≡ true → contains k seen ≡ true =
          λ e. ap (λ j. contains j seen) (sym ((eq_iff (key r) k).0 e)) ∙ t in
        rw t (elim (Bool-cases (str_eq (key r) k)) [
          | inl e ↦ inl (same e)
          | inr e ↦ collapse_from_keeps rs seen k (ground (arith, h, e))
        ])
    | inr t ↦ rw t (elim (Bool-cases (str_eq (key r) k)) [
      | inl e ↦ inr (ground (arith, e))
      | inr e ↦ elim (collapse_from_keeps rs (key r ∷ seen) k (ground (arith, h, e))) [
        | inl c ↦ inl (ground (arith, c, e))
        | inr c ↦ inr (ground (arith, c))
      ]
    ])
  ]

  pub Unseen-nil : (rs : List ResetRecord) → Unseen [] rs
  Unseen-nil [] = tt
  Unseen-nil (r ∷ rs) = (refl, Unseen-nil rs)

  -- The invariant of the backfill: distinct keys, all of them marked as existing, and no others.
  abbrev pub IsInStep : List String × List ResetRecord → Type 0
  IsInStep acc = Distinct (keys acc.1) × ((k : String) → contains k acc.0 ≡ contains k (keys acc.1))

  add_missing-IsInStep :
      (o : Option ResetRecord) (acc : List String × List ResetRecord)
      → IsInStep acc
      → IsInStep (add_missing format render o acc)
  add_missing-IsInStep none acc h = h
  add_missing-IsInStep (some r) (existing, history) (d, same) =
      elim (Bool-cases (contains (key r) existing)) [
        | inl t ↦ rw t (d, same)
        | inr t ↦ rw t (
          Distinct-snoc key history r d (sym (same (key r)) ∙ t),
          λ k. ap (λ b. str_eq (key r) k || b) (same k) ∙ sym (contains-snoc key k history r),
        )
      ]

  pub backfill_logs-IsInStep :
      (es : List LogEntry) (acc : List String × List ResetRecord)
      → IsInStep acc
      → IsInStep (backfill_logs format render es acc)
  unfolding backfill_logs
  backfill_logs-IsInStep [] acc h = h
  backfill_logs-IsInStep (e ∷ es) acc h =
      backfill_logs-IsInStep es (add_missing format render (record_of format render e) acc)
        (add_missing-IsInStep (record_of format render e) acc h)
