-- ===== src/Scenarios/Library.antt =====
-- The theorems on credits, retries and the log, at work on concrete data.
use mathlib.Core.List.{Perm}
use cpa_plugin_codex_auto_re.Prelude.{
  ℕ, IsNewest, none, List, [], ◌∷◌, ◌++◌, select, All, IsSortedBy,
}
use cpa_plugin_codex_auto_re.Models.{Time, hours, zero_time, Credit, LogEntry, say, NextAt}
use cpa_plugin_codex_auto_re.Models.Credits.{is_usable, available_credits_sorted}
use cpa_plugin_codex_auto_re.Models.Credits.Order.{IsUsable, NoLater, available_credits_sorted_lem}
use cpa_plugin_codex_auto_re.LogRing.{new_log_ring, load, all}
use cpa_plugin_codex_auto_re.LogRing.Laws.{IsCapacity, append_all, load-append_all}
use cpa_plugin_codex_auto_re.Scenarios.Sample.{credit, later_credit}

abbrev never : Credit
never = record { id = "c0"; status = "available"; expires_at = zero_time }

abbrev spent : Credit
spent = record { id = "c3"; status = "redeemed"; expires_at = hours 1500 }

abbrev mixed : List Credit
mixed = never ∷ later_credit ∷ spent ∷ credit ∷ []

available_credits_sorted_lem_example :
    IsSortedBy NoLater (available_credits_sorted mixed (hours 994))
    × All (IsUsable (hours 994)) (available_credits_sorted mixed (hours 994))
    × Perm (available_credits_sorted mixed (hours 994)) (select (is_usable (hours 994)) mixed)
available_credits_sorted_lem_example = available_credits_sorted_lem mixed (hours 994)

abbrev entry : Time → LogEntry
entry t = record {
  timestamp = t;
  level = "info";
  scope = "system";
  state = none;
  message = say "";
  next_action = say "";
  next_at = NextAt.nil;
  details = [];
}

abbrev old_log : List LogEntry
old_log = entry (hours 1) ∷ entry (hours 2) ∷ []

abbrev new_log : List LogEntry
new_log = entry (hours 3) ∷ entry (hours 4) ∷ []

load-append_all_example :
    (capacity : ℕ) × IsCapacity 3 capacity
    × IsNewest capacity
        (old_log ++ new_log)
        (all (append_all (load (new_log_ring 3) old_log) new_log))
load-append_all_example = load-append_all 3 old_log new_log
