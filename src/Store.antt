-- ===== src/Store.antt =====
-- state.go: the state that the plugin keeps across restarts, and its file.
pub mod Disk
pub mod File
pub mod Recovery
pub mod Migration
use cpa_plugin_codex_auto_re.Prelude.{String, List}
use cpa_plugin_codex_auto_re.Models.{
  Time, State, ResetAttempt, Snapshot, LogEntry, ResetRecord, Config,
}

pub record AccountRuntime : Type 0 where
  pub auth_id : String
  pub state : State
  pub next_wake : Time
  pub attempt : ResetAttempt
  pub last_snapshot : Snapshot

pub record PluginState : Type 0 where
  pub config : Config
  pub accounts : List (String × AccountRuntime)
  pub logs : List LogEntry
  pub reset_history : List ResetRecord
