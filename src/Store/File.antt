-- ===== src/Store/File.antt =====
-- saveState, loadState, readStateFile, loadBackupOrFresh and migrateStateFile of state.go.
-- `json.MarshalIndent` and `json.Unmarshal` of a state are arguments, and so is the time stamp in the
-- name of a quarantined file. A state whose accounts the JSON leaves out has the empty map.
use Prim.Native.String.{◌++◌}
use cpa_plugin_codex_auto_re.Prelude.{
  ℕ, zero, suc, String, Bool, true, false, ◌||◌, Option, none, some, [], if◌then◌else◌, str_eq, pos,
  St, ◌>>=◌, pure,
}
use cpa_plugin_codex_auto_re.Models.{Config}
use cpa_plugin_codex_auto_re.Store.{PluginState}
use cpa_plugin_codex_auto_re.Store.Disk.{Disk, Read, read_file, write_file, rename, exists}

abbrev pub D : Type 0 → Type 0
D A = St Disk A

abbrev pub state_read_retries : ℕ
state_read_retries = 3

-- `Config{}`, in the state that a first run starts from.
abbrev pub no_config : Config
no_config = record {
  refresh_interval = pos 0;
  trigger_lead_time = pos 0;
  enabled_accounts = [];
  state_dir = "";
}

abbrev pub fresh_state : PluginState
fresh_state = record { config = no_config; accounts = []; logs = []; reset_history = [] }

-- The attempts of `readStateFile`; `r` is the outcome of the last one.
unfoldable pub read_attempts : ℕ → Read → String → D Read
read_attempts zero r path = pure r
read_attempts (suc n) r path = do
  s ← read_file path
  elim s [
    | Read.bytes b ↦ pure (Read.bytes b)
    | Read.not_exist ↦ pure Read.not_exist
    | Read.failed ↦ read_attempts n Read.failed path
  ]

unfoldable pub read_state_file : String → D Read
unfolding read_attempts
read_state_file path = read_attempts state_read_retries Read.failed path

-- What a load returns: the state and its source, or the error of the last read.
pub data Loaded : Type 0 where
  loaded : PluginState → String → Loaded
  unreadable : Loaded

module _ (marshal : PluginState → Option String) (unmarshal : String → Option PluginState) where
  abbrev save_marshalled : String → Option String → D Bool
  save_marshalled path none = pure false
  save_marshalled path (some raw) = do
    wrote ← write_file (path ++ ".tmp") raw
    if wrote then rename (path ++ ".tmp") path else pure false

  -- Whether the save succeeded.
  unfoldable pub save_state : String → PluginState → D Bool
  save_state path s d = if d.can_mkdir then save_marshalled path (marshal s) d else (false, d)

  abbrev backup_or : String → Read → Loaded
  backup_or note (Read.bytes raw) = elim (unmarshal raw) [
    | none ↦ loaded fresh_state note
    | some s ↦ loaded s "backup"
  ]
  backup_or note Read.not_exist = loaded fresh_state note
  backup_or note Read.failed = loaded fresh_state note

  unfoldable pub load_backup_or_fresh : String → String → D Loaded
  load_backup_or_fresh path note = do r ← read_file (path ++ ".bak"); pure (backup_or note r)

  abbrev after_corruption : Loaded → Loaded
  after_corruption (loaded s note) = loaded s ("corrupt-main," ++ note)
  after_corruption unreadable = unreadable

  abbrev load_parsed : String → String → String → Option PluginState → D Loaded
  unfolding load_backup_or_fresh
  load_parsed stamp path raw (some s) = do
    refreshed ← write_file (path ++ ".bak") raw
    pure (loaded s "main")
  load_parsed stamp path raw none = do
    kept ← write_file (path ++ (".corrupt-" ++ stamp)) raw
    r ← load_backup_or_fresh path "fresh-after-corrupt"
    pure (after_corruption r)

  abbrev load_read : String → String → Read → D Loaded
  unfolding load_parsed
  load_read stamp path Read.not_exist = load_backup_or_fresh path "fresh"
  load_read stamp path Read.failed = pure unreadable
  load_read stamp path (Read.bytes raw) = load_parsed stamp path raw (unmarshal raw)

  -- `stamp` is the formatted time.
  unfoldable pub load_state : String → String → D Loaded
  unfolding load_read
  load_state stamp path = do r ← read_state_file path; load_read stamp path r

  abbrev pub migrate_parsed : String → String → Option PluginState → D Bool
  migrate_parsed src dst none = pure false
  migrate_parsed src dst (some s) = do
    saved ← save_state dst s
    if saved then (do renamed ← rename src (src ++ ".migrated"); pure true) else pure false

  abbrev migrate_read : String → String → Read → D Bool
  migrate_read src dst (Read.bytes raw) d =
      if exists dst d then (false, d) else migrate_parsed src dst (unmarshal raw) d
  migrate_read src dst Read.not_exist d = (false, d)
  migrate_read src dst Read.failed d = (false, d)

  -- Whether the state was moved.
  unfoldable pub migrate_state_file : String → String → D Bool
  migrate_state_file src dst =
      if str_eq src "" || str_eq dst "" || str_eq src dst
      then pure false
      else (do r ← read_file src; migrate_read src dst r)
