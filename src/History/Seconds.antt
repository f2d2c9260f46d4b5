-- ===== src/History/Seconds.antt =====
-- When two records of the history are of one reset, told without the keys of main.go.
use cpa_plugin_codex_auto_re.Prelude.{
  ℕ, ◌+◌, ◌*◌, ◌≤◌, suc, ◌≡◌, refl, ap, ◌∙◌, sym, pos, String, List, [], ◌∷◌, All, arith, Distinct,
}
use cpa_plugin_codex_auto_re.Models.{Time, Message, ResetRecord}
use cpa_plugin_codex_auto_re.History.{truncate_second, backfill_key, record_key}
use cpa_plugin_codex_auto_re.History.Backfill.{keys}

-- The times fall in one second: `k` whole seconds after the zero time, and a part of a second.
abbrev pub SameSecond : Time → Time → Type 0
SameSecond t u =
    (k : ℕ) × (a : ℕ) × (b : ℕ) × (t ≡ pos (k * 1000000000 + a))
    × (u ≡ pos (k * 1000000000 + b))
    × (suc a ≤ 1000000000)
    × (suc b ≤ 1000000000)

-- The records are of one account and one credit, in one second.
abbrev pub SameReset : ResetRecord → ResetRecord → Type 0
SameReset r q =
    (r.auth_id ≡ q.auth_id) × (r.credit_id ≡ q.credit_id) × SameSecond r.timestamp q.timestamp

-- No reset stands twice in the history.
abbrev pub NoneTwice : List ResetRecord → Type 0
NoneTwice [] = Unit
NoneTwice (r ∷ rs) = All (λ q. ¬ SameReset r q) rs × NoneTwice rs

SameSecond-truncate_second : (t u : Time) → SameSecond t u → truncate_second t ≡ truncate_second u
SameSecond-truncate_second t u (k, a, b, e, f, small, little) =
    ap truncate_second e ∙ ap pos (omega arith) ∙ sym (ap truncate_second f)

module _ (format : Time → String) (render : Message → String) where
  SameReset-record_key :
      (r q : ResetRecord) → SameReset r q → record_key format render r ≡ record_key format render q
  unfolding backfill_key
  SameReset-record_key r q (a, c, s) =
      rw (a, c, SameSecond-truncate_second r.timestamp q.timestamp s) refl

  Distinct-NotAgain :
      (r : ResetRecord) (rs : List ResetRecord)
      → All (λ k. ¬ (record_key format render r ≡ k)) (keys format render rs)
      → All (λ q. ¬ SameReset r q) rs
  Distinct-NotAgain r [] h = tt
  Distinct-NotAgain r (q ∷ rs) h =
      (λ s. h.0 (SameReset-record_key r q s), Distinct-NotAgain r rs h.1)

  pub Distinct-NoneTwice : (rs : List ResetRecord) → Distinct (keys format render rs) → NoneTwice rs
  Distinct-NoneTwice [] d = tt
  Distinct-NoneTwice (r ∷ rs) d = (Distinct-NotAgain r rs d.0, Distinct-NoneTwice rs d.1)
