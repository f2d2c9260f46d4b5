-- ===== src/Boot/Path.antt =====
-- `resolveStatePath` and `defaultStatePath` of main.go. Package path/filepath depends on the operating
-- system and is an argument, with the directory that `os.UserConfigDir` gives.
use cpa_plugin_codex_auto_re.Prelude.{
  String, Bool, not, ◌&&◌, Option, none, some, List, [], ◌∷◌, if◌then◌else◌, str_eq, trim_space,
}
use cpa_plugin_codex_auto_re.Client.{Result, ok, err}
use cpa_plugin_codex_auto_re.Management.Requests.{AuthEntry}

pub record FilePaths : Type 0 where
  pub is_abs : String → Bool
  pub dir : String → String
  pub join : List String → String
  pub user_config_dir : Result String

module _ (fp : FilePaths) where
  -- The directory of the user's configuration, or the current one.
  abbrev pub config_dir : Result String → String
  config_dir (err e) = "."
  config_dir (ok dir) = if str_eq dir "" then "." else dir

  unfoldable pub default_state_path : String
  default_state_path =
      fp.join
        (config_dir fp.user_config_dir ∷ "CLIProxyAPI" ∷ "codex-auto-reset" ∷ "state.json" ∷ [])

  -- The loop over the auth files: beside the first that has an absolute path.
  unfoldable pub beside_auth_file : List AuthEntry → Option String
  beside_auth_file [] = none
  beside_auth_file (e ∷ rest) =
      let later = beside_auth_file rest in
      if not (str_eq e.path "") && fp.is_abs e.path
      then some (fp.join (fp.dir e.path ∷ "plugin-state" ∷ "codex-auto-reset" ∷ "state.json" ∷ []))
      else later

  abbrev pub or_default : Option String → String
  or_default none = default_state_path
  or_default (some path) = path

  unfoldable pub resolve_state_path : String → List AuthEntry → String
  unfolding default_state_path beside_auth_file
  resolve_state_path state_dir entries =
      let dir = trim_space state_dir in
      if not (str_eq dir "") && fp.is_abs dir
      then fp.join (dir ∷ "state.json" ∷ [])
      else or_default (beside_auth_file entries)
