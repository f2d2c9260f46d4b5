-- ===== src/Boot/Configure.antt =====
-- `configurePlugin` of main.go: the state is found, moved forward and loaded, and a worker is started on it.
-- The request, the list of auth files, and the coders are arguments. `read_error` is the error that the
-- last attempt to read the state file gave.
pub mod Restore
use text.Mathlib.Text.{find?}
use cpa_plugin_codex_auto_re.Prelude.{
  ℕ, pos, String, Bool, true, false, not, ◌&&◌, Option, none, some, List, [], ◌∷◌, if◌then◌else◌,
  eqb_ℤ, str_eq, trim_space,
}
use cpa_plugin_codex_auto_re.Models.{
  Time, Config, Message, Value, say, NextAt, LogEntry, max_log_entries,
}
use cpa_plugin_codex_auto_re.Client.{GoError, Result, ok, err}
use cpa_plugin_codex_auto_re.Config.{YamlConfig, default_config, parse_config_yaml}
use cpa_plugin_codex_auto_re.LogRing.{LogRing, new_log_ring, load, append}
use cpa_plugin_codex_auto_re.Store.{PluginState}
use cpa_plugin_codex_auto_re.Store.Disk.{Disk}
use cpa_plugin_codex_auto_re.Store.File.{
  Loaded, loaded, unreadable, fresh_state, load_state, migrate_state_file,
}
use cpa_plugin_codex_auto_re.History.{backfill_reset_history_from_logs}
use cpa_plugin_codex_auto_re.Worker.State.{Running, Host, Out, new_worker, record_out, log_entry}
use cpa_plugin_codex_auto_re.Management.Requests.{AuthEntry, Plugin}
use cpa_plugin_codex_auto_re.Management.Handlers.{restart_worker_from_state}
use cpa_plugin_codex_auto_re.Boot.Path.{FilePaths, default_state_path, resolve_state_path}

-- What `configurePlugin` calls: the decoder of the request, which gives its `config_yaml`, the YAML
-- decoder, the coders of a state, and those of `backfillResetHistoryFromLogs`.
pub record Coders : Type 0 where
  pub request : String → Result String
  pub yaml : String → Result YamlConfig
  pub marshal : PluginState → Option String
  pub unmarshal : String → Option PluginState
  pub format : Time → String
  pub render : Message → String

-- A configuration that nothing was stored in.
abbrev pub is_blank : Config → Bool
is_blank c =
    eqb_ℤ c.refresh_interval (pos 0)
    && eqb_ℤ c.trigger_lead_time (pos 0)
    && (elim (c.enabled_accounts) [ [] ↦ true | ◌∷◌ a rest ↦ false ])

abbrev pub entries_of : Result (List AuthEntry) → List AuthEntry
entries_of (err e) = []
entries_of (ok auths) = auths

-- The state that the plugin goes on with.
abbrev pub or_fresh : Loaded → PluginState
or_fresh (loaded s source) = s
or_fresh unreadable = fresh_state

-- The configuration that is used: the stored one if there is one, else that of the request; a state
-- directory of the request stays.
unfoldable pub chosen_config : Config → PluginState → Config
chosen_config cfg s =
    let base = if is_blank s.config then cfg else s.config in
    let dir = trim_space cfg.state_dir in
    if not (str_eq dir "") then record base { state_dir = dir } else base

module _ (coders : Coders) where
  -- The configuration of the request.
  abbrev pub requested : Result String → Result Config
  requested (err e) = err e
  requested (ok yaml) =
      if not (str_eq yaml "") then parse_config_yaml coders.yaml yaml else ok default_config

  abbrev pub requested_config : String → Result Config
  requested_config raw = if str_eq raw "" then requested (ok "") else requested (coders.request raw)

module _ (read_error : GoError) where
  abbrev pub contains_corrupt : String → Bool
  contains_corrupt s = elim (find? s "corrupt") [ none ↦ false | some n ↦ true ]

  -- The level and the text of the entry that says what was loaded.
  abbrev pub load_level : Loaded → String
  load_level (loaded s source) = if contains_corrupt source then "warn" else "info"
  load_level unreadable = "error"

  abbrev pub source_text : Loaded → Value
  source_text (loaded s source) = Value.text source
  source_text unreadable = Value.err_text (GoError.wrapped "error: " read_error)

module _ {H : Type 0} (host : Host H) (coders : Coders) (fp : FilePaths) (stamp : String)
    (read_error : GoError) where
  -- The two migrations and the load.
  abbrev pub moved_and_loaded : String → Disk → Loaded × Disk
  moved_and_loaded path d =
      let legacy =
        migrate_state_file coders.marshal coders.unmarshal "codex-auto-reset.state.json" path d in
      let older =
        migrate_state_file coders.marshal coders.unmarshal (default_state_path fp) path legacy.1 in
      load_state coders.marshal coders.unmarshal stamp path older.1

  abbrev pub announced : String → Loaded → Out H → Out H
  announced path l o =
      record_out host
        (log_entry host (load_level read_error l) "system" none
          (record {
            format = "state file: %s (loaded: %s)";
            args = Value.text path ∷ source_text read_error l ∷ [];
          })
          (say "") NextAt.nil [])
        o

  abbrev pub warned : Result (List AuthEntry) → Out H → Out H
  warned (ok auths) o = o
  warned (err e) o =
      record_out host
        (log_entry host "warn" "system" none
          (record {
            format =
                "auth list for state-dir derivation failed: %s; state may not survive container recreates";
            args = Value.err_text e ∷ [];
          })
          (say "") NextAt.nil [])
        o

  -- The stored log takes the place of what the ring holds.
  abbrev pub with_stored_log : List LogEntry → Out H → Out H
  with_stored_log [] o = o
  with_stored_log (e ∷ es) o = record o { logs = load o.logs (e ∷ es) }

  abbrev pub start : Config → Result (List AuthEntry) → String → Loaded × Disk → H → Plugin H
  start cfg auths path (l, d) h =
      let s = or_fresh l in
      let used = chosen_config cfg s in
      let quiet : Out H = record { host = h; logs = new_log_ring max_log_entries } in
      let out = with_stored_log s.logs (warned auths (announced path l quiet)) in
      record {
        state =
            backfill_reset_history_from_logs coders.format coders.render
              (record s { config = used });
        state_path = path;
        disk = d;
        running = some (record { worker = new_worker used used.enabled_accounts; out = out });
        on_settings_changed = some (restart_worker_from_state h);
      }

  abbrev pub configured : Result Config → Result (List AuthEntry) → Disk → H → Result (Plugin H)
  configured (err e) auths d h = err e
  configured (ok cfg) auths d h =
      let path = resolve_state_path fp (trim_space cfg.state_dir) (entries_of auths) in
      ok (start cfg auths path (moved_and_loaded path d) h)

  -- `raw` is the request and `auths` what `listAuthsViaHost` gives.
  unfoldable pub configure_plugin : String → Result (List AuthEntry) → Disk → H → Result (Plugin H)
  configure_plugin raw auths d h = configured (requested_config coders raw) auths d h
