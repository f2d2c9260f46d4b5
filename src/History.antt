-- ===== src/History.antt =====
-- The reset history of main.go: `collapseResetHistoryDuplicates`, `backfillResetHistoryFromLogs` and
-- `syncFSMIntoGlobalState`, on the persisted state.
-- `time.Format` and the text of a log message are arguments. A details map that is nil and one that is
-- empty are treated alike by the source, and are one empty list.
pub mod Keys
pub mod Backfill
pub mod Seconds
pub mod Verdicts
pub mod Restart
pub mod Sync
pub mod Mirror
pub mod Wiring
use Prim.Native.Nat.{◌/◌}
use Prim.Native.String.{◌++◌ as join}
use text.Mathlib.Text.{find?}
use cpa_plugin_codex_auto_re.Prelude.{
  ℕ, ◌*◌, ◌+◌, ◌-◌, ℤ, pos, negsuc, String, Bool, true, false, not, ◌&&◌, Option, none, some, List,
  [], ◌∷◌, ◌++◌, map, length, drop, if◌then◌else◌, ltb, eqb_ℤ, str_eq, contains, lookup, insert,
}
use cpa_plugin_codex_auto_re.Models.{Time, State, no_attempt, Value, Message, LogEntry, ResetRecord}
use cpa_plugin_codex_auto_re.LogRing.{LogRing, all}
use cpa_plugin_codex_auto_re.Fsm.Machine.{AccountFsm, is_done, take_pending_history}
use cpa_plugin_codex_auto_re.Store.{AccountRuntime, PluginState}

-- `t.Truncate(time.Second)`, which rounds down.
abbrev pub truncate_second : Time → Time
truncate_second (pos n) = pos (n / 1000000000 * 1000000000)
truncate_second (negsuc n) = negsuc ((n / 1000000000 + 1) * 1000000000 - 1)

-- The cap of `syncFSMIntoGlobalState`.
abbrev pub max_history : ℕ
max_history = 500

abbrev pub capped : List ResetRecord → List ResetRecord
capped rs = if ltb max_history (length rs) then drop (length rs - max_history) rs else rs

abbrev pub remember : Option ResetRecord → List ResetRecord → List ResetRecord
remember none rs = rs
remember (some r) rs = capped (rs ++ r ∷ [])

-- `syncFSMIntoGlobalState`: the record that it returns, the state machine and the state.
unfoldable pub sync_fsm_into_global_state :
    LogRing → String → AccountFsm → PluginState → (Option ResetRecord × AccountFsm) × PluginState
sync_fsm_into_global_state logs auth_id fsm s =
    let taken = take_pending_history fsm in
    (
      taken,
      record s {
        accounts =
            insert auth_id
              (record {
                auth_id = auth_id;
                state = fsm.state;
                next_wake = fsm.next_wake;
                attempt = no_attempt;
                last_snapshot = fsm.last_snapshot;
              })
              s.accounts;
        reset_history = remember taken.0 s.reset_history;
        logs = all logs;
      },
    )

-- `v, _ := details[k].(float64)` and `v, _ := details[k].(string)`.
abbrev pub as_number : Option Value → ℤ
as_number (some (Value.number n)) = n
as_number _ = pos 0

abbrev pub as_text : Option Value → String
as_text (some (Value.text s)) = s
as_text _ = ""

abbrev pub is_done_entry : Option State → Bool
is_done_entry none = false
is_done_entry (some s) = is_done s

module _ (format : Time → String) (render : Message → String) where
  unfoldable pub backfill_key : String → String → Time → String
  backfill_key auth_id credit_id t =
      join auth_id (join "|" (join credit_id (join "|" (format (truncate_second t)))))

  abbrev pub record_key : ResetRecord → String
  unfolding backfill_key
  record_key r = backfill_key r.auth_id r.credit_id r.timestamp

  -- The loop of `collapseResetHistoryDuplicates`, with the keys seen so far.
  unfoldable pub collapse_from : List String → List ResetRecord → List ResetRecord
  collapse_from seen [] = []
  collapse_from seen (r ∷ rest) =
      let dropped = contains (record_key r) seen in
      let kept = collapse_from (if dropped then seen else record_key r ∷ seen) rest in
      if dropped then kept else r ∷ kept

  unfoldable pub collapse_reset_history_duplicates : PluginState → PluginState
  unfolding collapse_from
  collapse_reset_history_duplicates s = record s {
    reset_history = collapse_from [] s.reset_history;
  }

  -- `strings.Contains(e.Message, "verified OK")`.
  abbrev pub is_verified : LogEntry → Bool
  is_verified e = elim (find? (render e.message) "verified OK") [ none ↦ false | some n ↦ true ]

  -- The record that a log entry gives, if it is the verdict of a reset.
  abbrev pub record_of : LogEntry → Option ResetRecord
  record_of e =
      let pre = as_number (lookup "pre_credits" e.details) in
      let post = as_number (lookup "post_credits" e.details) in
      let credit_id = as_text (lookup "credit_id" e.details) in
      if not (is_done_entry e.state)
      then none
      else if eqb_ℤ pre (pos 0) && eqb_ℤ post (pos 0) && str_eq credit_id ""
      then none
      else some (record {
        timestamp = e.timestamp;
        auth_id = e.scope;
        credit_id = credit_id;
        success = is_verified e;
        pre_weekly_pct = as_number (lookup "pre_weekly_pct" e.details);
        post_weekly_pct = as_number (lookup "post_weekly_pct" e.details);
        pre_credits = pre;
        post_credits = post;
      })

  -- The keys that exist, and the history.
  abbrev pub add_missing :
      Option ResetRecord → List String × List ResetRecord → List String × List ResetRecord
  add_missing none acc = acc
  add_missing (some r) (existing, history) =
      if contains (record_key r) existing
      then (existing, history)
      else (record_key r ∷ existing, history ++ r ∷ [])

  unfoldable pub backfill_logs :
      List LogEntry → List String × List ResetRecord → List String × List ResetRecord
  backfill_logs [] acc = acc
  backfill_logs (e ∷ es) acc = backfill_logs es (add_missing (record_of e) acc)

  unfoldable pub with_backfill : List LogEntry → List ResetRecord → List ResetRecord
  unfolding backfill_logs
  with_backfill [] history = history
  with_backfill (e ∷ es) history = (backfill_logs (e ∷ es) (map record_key history, history)).1

  unfoldable pub backfill_reset_history_from_logs : PluginState → PluginState
  unfolding collapse_reset_history_duplicates with_backfill
  backfill_reset_history_from_logs s =
      let c = collapse_reset_history_duplicates s in
      record c { reset_history = with_backfill c.logs c.reset_history }
