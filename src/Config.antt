-- ===== src/Config.antt =====
-- config.go: the defaults, the YAML block of the host, and `normalizeConfig`.
-- `yaml.Unmarshal` is an argument; a list that the YAML leaves out is `none`.
pub mod Normal
pub mod Json
use cpa_plugin_codex_auto_re.Prelude.{
  String, Bool, true, false, ◌||◌, Option, none, some, List, [], ◌∷◌, if◌then◌else◌, str_eq,
  contains, ltb_ℤ, trim_space,
}
use cpa_plugin_codex_auto_re.Models.{Duration, minutes, hours, Config}
use cpa_plugin_codex_auto_re.Client.{GoError, Result, ok, err}

-- `"*"` in the enabled list.
abbrev pub all_accounts_wildcard : String
all_accounts_wildcard = "*"

unfoldable pub config_enables_all : List String → Bool
config_enables_all [] = false
config_enables_all (a ∷ rest) = str_eq a all_accounts_wildcard || config_enables_all rest

unfoldable pub default_config : Config
default_config = record {
  refresh_interval = hours 12;
  trigger_lead_time = hours 6;
  enabled_accounts = all_accounts_wildcard ∷ [];
  state_dir = "";
}

-- The loop over the enabled accounts, with those seen so far.
unfoldable pub accounts_from : List String → List String → List String
accounts_from seen [] = []
accounts_from seen (a ∷ rest) =
    let t = trim_space a in
    let dropped = str_eq t "" || contains t seen in
    let out = accounts_from (if dropped then seen else t ∷ seen) rest in
    if dropped then out else t ∷ out

-- An interval with its floor.
abbrev pub at_least_a_minute : Duration → Duration → Duration
at_least_a_minute default d = if ltb_ℤ d (minutes 1) then default else d

unfoldable pub normalize_config : Config → Config
unfolding accounts_from config_enables_all
normalize_config cfg =
    let out = accounts_from [] cfg.enabled_accounts in
    record cfg {
      refresh_interval = at_least_a_minute (hours 12) cfg.refresh_interval;
      trigger_lead_time = at_least_a_minute (hours 6) cfg.trigger_lead_time;
      enabled_accounts = if config_enables_all out then all_accounts_wildcard ∷ [] else out;
    }

-- What the YAML decoder leaves in the `Config`.
pub record YamlConfig : Type 0 where
  pub refresh_interval : Duration
  pub trigger_lead_time : Duration
  pub enabled_accounts : Option (List String)
  pub state_dir : String

abbrev pub with_default : Option (List String) → List String
with_default none = all_accounts_wildcard ∷ []
with_default (some accounts) = accounts

abbrev pub parsed : Result YamlConfig → Result Config
unfolding normalize_config
parsed (err e) = err (GoError.wrapped "parse config yaml: %w" e)
parsed (ok y) = ok (
    normalize_config (record {
      refresh_interval = y.refresh_interval;
      trigger_lead_time = y.trigger_lead_time;
      enabled_accounts = with_default y.enabled_accounts;
      state_dir = y.state_dir;
    }))

unfoldable pub parse_config_yaml {ℓ} :
    {Raw : Type ℓ} → (Raw → Result YamlConfig) → Raw → Result Config
unfolding parsed
parse_config_yaml unmarshal raw = parsed (unmarshal raw)
