-- ===== src/LogRing.antt =====
-- log.go: the capped log. Its mutex makes each method one step, so a method is a function of the ring.
pub mod Laws
use cpa_plugin_codex_auto_re.Prelude.{
  ℕ, ◌-◌, Bool, not, List, [], ◌∷◌, ◌++◌, length, drop, select, if◌then◌else◌, ltb, ltb_ℤ,
}
use cpa_plugin_codex_auto_re.Models.{Time, LogEntry}

pub record LogRing : Type 0 where
  pub entries : List LogEntry
  pub capacity : ℕ

unfoldable pub new_log_ring : ℕ → LogRing
new_log_ring capacity = record { entries = []; capacity = if ltb capacity 1 then 1 else capacity }

-- `entries[len(entries)-cap:]` where there are too many.
abbrev pub newest : ℕ → List LogEntry → List LogEntry
newest n es = if ltb n (length es) then drop (length es - n) es else es

unfoldable pub load : LogRing → List LogEntry → LogRing
load r es = record r { entries = newest r.capacity es }

unfoldable pub append : LogRing → LogEntry → LogRing
append r e = record r { entries = newest r.capacity (r.entries ++ e ∷ []) }

-- A copy, so that the caller's list does not change with the ring.
unfoldable pub all : LogRing → List LogEntry
all r = r.entries

unfoldable pub prune_older_than : LogRing → Time → LogRing
prune_older_than r cutoff = record r {
  entries = select (λ e. not (ltb_ℤ e.timestamp cutoff)) r.entries;
}
