-- ===== src/History/Restart.antt =====
-- What `backfillResetHistoryFromLogs` does to the history at each start of the plugin.
use cpa_plugin_codex_auto_re.Prelude.{
  ◌≡◌, refl, sym, ◌∙◌, ap, inl, inr, String, true, Option, none, some, List, [], ◌∷◌, All, arith,
  eq_iff, Bool-cases, contains, Distinct,
}
use cpa_plugin_codex_auto_re.Models.{Time, Message, LogEntry, ResetRecord}
use cpa_plugin_codex_auto_re.Store.{PluginState}
use cpa_plugin_codex_auto_re.History.{
  record_key, collapse_from, record_of, add_missing, backfill_logs, with_backfill,
  backfill_reset_history_from_logs,
}
use cpa_plugin_codex_auto_re.History.Backfill.{
  keys, IsInStep, backfill_logs-IsInStep, collapse_from-Unseen, collapse_from_id,
  collapse_from_keeps, Unseen-nil,
}
use cpa_plugin_codex_auto_re.History.Verdicts.{IsRecorded}

module _ (format : Time → String) (render : Message → String) where
  abbrev key : ResetRecord → String
  key r = record_key format render r

  abbrev add : LogEntry → List String × List ResetRecord → List String × List ResetRecord
  add e acc = add_missing format render (record_of format render e) acc

  add_missing_keeps :
      (o : Option ResetRecord) (acc : List String × List ResetRecord) (k : String)
      → contains k acc.0 ≡ true
      → contains k (add_missing format render o acc).0 ≡ true
  add_missing_keeps none acc k h = h
  add_missing_keeps (some r) (existing, history) k h = ground (arith, h)

  backfill_logs_keeps :
      (es : List LogEntry) (acc : List String × List ResetRecord) (k : String)
      → contains k acc.0 ≡ true
      → contains k (backfill_logs format render es acc).0 ≡ true
  unfolding backfill_logs
  backfill_logs_keeps [] acc k h = h
  backfill_logs_keeps (e ∷ es) acc k h =
      backfill_logs_keeps es (add e acc) k (add_missing_keeps (record_of format render e) acc k h)

  add_missing_adds :
      (o : Option ResetRecord) (acc : List String × List ResetRecord) (r : ResetRecord)
      → o ≡ some r
      → contains (key r) (add_missing format render o acc).0 ≡ true
  add_missing_adds none acc r h = absurd (ground arith)
  add_missing_adds (some q) (existing, history) r h =
      let same : q ≡ r = ground arith in
      ap (λ x. contains (key r) (add_missing format render (some x) (existing, history)).0) same
      ∙ elim (Bool-cases (contains (key r) existing)) [
        | inl t ↦ rw t t
        | inr t ↦ rw t (ground (arith, eq_iff (key r) (key r)))
      ]

  backfill_logs-IsRecorded :
      (es : List LogEntry) (acc : List String × List ResetRecord)
      → All (IsRecorded format render (backfill_logs format render es acc).0) es
  unfolding backfill_logs
  backfill_logs-IsRecorded [] acc = tt
  backfill_logs-IsRecorded (e ∷ es) acc = (
    λ r h.
        backfill_logs_keeps es (add e acc) (key r)
          (add_missing_adds (record_of format render e) acc r h),
    backfill_logs-IsRecorded es (add e acc),
  )

  add_missing_id :
      (o : Option ResetRecord) (acc : List String × List ResetRecord)
      → ((r : ResetRecord) → o ≡ some r → contains (key r) acc.0 ≡ true)
      → add_missing format render o acc ≡ acc
  add_missing_id none acc h = refl
  add_missing_id (some r) (existing, history) h = rw (h r refl) refl

  backfill_logs_id :
      (es : List LogEntry) (acc : List String × List ResetRecord)
      → All (IsRecorded format render acc.0) es
      → backfill_logs format render es acc ≡ acc
  unfolding backfill_logs
  backfill_logs_id [] acc h = refl
  backfill_logs_id (e ∷ es) acc h =
      ap (backfill_logs format render es) (add_missing_id (record_of format render e) acc h.0)
      ∙ backfill_logs_id es acc h.1

  start-IsInStep :
      (rs : List ResetRecord)
      → Distinct (keys format render rs)
      → IsInStep format render (keys format render rs, rs)
  start-IsInStep rs d = (d, λ k. refl)

  IsRecorded-keys :
      (es : List LogEntry) (acc : List String × List ResetRecord)
      → ((k : String) → contains k acc.0 ≡ contains k (keys format render acc.1))
      → All (IsRecorded format render acc.0) es
      → All (IsRecorded format render (keys format render acc.1)) es
  IsRecorded-keys [] acc s h = tt
  IsRecorded-keys (e ∷ es) acc s h =
      (λ r o. sym (s (key r)) ∙ h.0 r o, IsRecorded-keys es acc s h.1)

  -- The history that a backfill leaves, from one with distinct keys.
  abbrev Settled : List LogEntry → List ResetRecord → Type 0
  Settled es rs =
      let out = with_backfill format render es rs in
      Distinct (keys format render out)
      × All (IsRecorded format render (keys format render out)) es
      × ((k : String)
          → contains k (keys format render rs) ≡ true
          → contains k (keys format render out) ≡ true)

  with_backfill-Settled :
      (es : List LogEntry) (rs : List ResetRecord)
      → Distinct (keys format render rs)
      → Settled es rs
  unfolding with_backfill
  with_backfill-Settled [] rs d = (d, tt, λ k h. h)
  with_backfill-Settled (e ∷ es) rs d =
      let start : List String × List ResetRecord = (keys format render rs, rs) in
      let (distinct, same) =
        backfill_logs-IsInStep format render (e ∷ es) start (start-IsInStep rs d) in
      (
        distinct,
        IsRecorded-keys (e ∷ es) _ same (backfill_logs-IsRecorded (e ∷ es) start),
        λ k h. sym (same k) ∙ backfill_logs_keeps (e ∷ es) start k h,
      )

  with_backfill_id :
      (es : List LogEntry) (rs : List ResetRecord)
      → All (IsRecorded format render (keys format render rs)) es
      → with_backfill format render es rs ≡ rs
  unfolding with_backfill
  with_backfill_id [] rs h = refl
  with_backfill_id (e ∷ es) rs h =
      ap (λ p. p.1) (backfill_logs_id (e ∷ es) (keys format render rs, rs) h)

  backfill-Settled :
      (s : PluginState)
      → let t = backfill_reset_history_from_logs format render s in
        Distinct (keys format render t.reset_history)
        × All (IsRecorded format render (keys format render t.reset_history)) s.logs
        × ((k : String)
            → contains k (keys format render s.reset_history) ≡ true
            → contains k (keys format render t.reset_history) ≡ true)
  unfolding backfill_reset_history_from_logs
  backfill-Settled s =
      let collapsed = collapse_from format render [] s.reset_history in
      let (distinct, _) = collapse_from-Unseen format render s.reset_history [] in
      let (d, recorded, kept) = with_backfill-Settled s.logs collapsed distinct in
      (
        d,
        recorded,
        λ k h. elim (collapse_from_keeps format render s.reset_history [] k h) [
          | inl c ↦ absurd (ground arith)
          | inr c ↦ kept k c
        ],
      )

  -- A second backfill, as at the next start with the same log, changes nothing.
  pub backfill_idem :
      (s : PluginState)
      → let t = backfill_reset_history_from_logs format render s in
        backfill_reset_history_from_logs format render t ≡ t
  unfolding backfill_reset_history_from_logs
  backfill_idem s =
      let t = backfill_reset_history_from_logs format render s in
      let (d, recorded, _) = backfill-Settled s in
      let same =
        collapse_from_id format render t.reset_history [] d
          (Unseen-nil format render t.reset_history) in
      ap (λ rs. record t { reset_history = with_backfill format render t.logs rs }) same
      ∙ ap (λ rs. record t { reset_history = rs })
          (with_backfill_id t.logs t.reset_history recorded)
