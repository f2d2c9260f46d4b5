-- ===== src/Scenarios/Restart.antt =====
-- A start of the plugin on the state that it has saved beside the auth files.
use cpa_plugin_codex_auto_re.Prelude.{
  ℕ, true, ◌≡◌, refl, ◌⊎◌, none, some, [], trim_space, if◌then◌else◌, str_eq,
}
use cpa_plugin_codex_auto_re.Models.{max_log_entries}
use cpa_plugin_codex_auto_re.Client.{GoError, ok, err}
use cpa_plugin_codex_auto_re.Config.{default_config}
use cpa_plugin_codex_auto_re.LogRing.{all, newest}
use cpa_plugin_codex_auto_re.Store.{PluginState}
use cpa_plugin_codex_auto_re.Store.Disk.{Disk, write_file, rename}
use cpa_plugin_codex_auto_re.Store.File.{fresh_state, save_state}
use cpa_plugin_codex_auto_re.Worker.State.{Running, new_worker}
use cpa_plugin_codex_auto_re.Management.Requests.{Plugin}
use cpa_plugin_codex_auto_re.Boot.Path.{FilePaths, resolve_state_path}
use cpa_plugin_codex_auto_re.Boot.Configure.{Coders, configure_plugin}
use cpa_plugin_codex_auto_re.Boot.Configure.Restore.{
  save, state_place, restored, configure_plugin-restores,
}
use cpa_plugin_codex_auto_re.Scenarios.Sample.{config, host}
use cpa_plugin_codex_auto_re.Scenarios.Start.{listed}

abbrev saved : PluginState
saved = record fresh_state { config = config }

abbrev pub coders : Coders
coders = record {
  request = λ raw. ok "";
  yaml = λ raw. err (GoError.plain "yaml");
  marshal = λ s. some "S";
  unmarshal = λ b. if str_eq b "S" then some saved else none;
  format = λ t. "t";
  render = λ m. "m";
}

-- The file system, with the directory of the one auth file.
abbrev pub paths : FilePaths
paths = record {
  is_abs = λ path. str_eq path "/auth/codex-a.json";
  dir = λ path. "/auth";
  join = λ parts. "/auth/plugin-state/codex-auto-reset/state.json";
  user_config_dir = ok "/home";
}

abbrev disk : Disk
disk = record { files = []; failing = 0; full = none; can_mkdir = true }

configure_plugin-restores_example :
    let no_error = GoError.plain "" in
    let place = state_place host coders paths "t" no_error default_config listed in
    let after = (save host coders paths "t" no_error place saved disk).1 in
    (p : Plugin ℕ) × (r : Running ℕ) × (configure_plugin host coders paths "t" no_error "" listed
        after 7
      ≡ ok p)
    × (p.state_path ≡ place)
    × (p.state ≡ restored host coders paths "t" no_error default_config saved)
    × (p.running ≡ some r)
    × (r.worker ≡ new_worker p.state.config p.state.config.enabled_accounts)
    × ((saved.logs ≡ []) ⊎ (all r.out.logs ≡ newest max_log_entries saved.logs))
unfolding save_state write_file rename resolve_state_path trim_space default_config
configure_plugin-restores_example =
    configure_plugin-restores host coders paths "t" (GoError.plain "") "" default_config listed
      saved "S" disk 7 refl refl refl refl refl refl
