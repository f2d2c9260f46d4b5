-- ===== src/Management/Requests.antt =====
-- The requests and responses of management.go, and what its handlers work on.
-- The JSON and YAML decoders and `time.ParseDuration` are fields of `Codec`; what the host and the server
-- answer to a request comes with the request. A JSON body is the value that is given to the encoder.
use cpa_plugin_codex_auto_re.Prelude.{ℕ, String, Bool, Option, List}
use cpa_plugin_codex_auto_re.Models.{
  Duration, LogEntry, ResetRecord, Config, Message, CodexCredentials,
}
use cpa_plugin_codex_auto_re.Client.{Result}
use cpa_plugin_codex_auto_re.Config.{YamlConfig}
use cpa_plugin_codex_auto_re.Store.{PluginState, AccountRuntime}
use cpa_plugin_codex_auto_re.Store.Disk.{Disk}
use cpa_plugin_codex_auto_re.Worker.State.{Running}

pub record AccountOption : Type 0 where
  pub auth_index : String
  pub id : String
  pub name : String
  pub email : String
  pub account : String
  pub enabled : Bool

pub record AuthEntry : Type 0 where
  pub id : String
  pub auth_index : String
  pub path : String
  pub provider : String
  pub type_name : String
  pub name : String
  pub email : String
  pub account : String
  pub disabled : Bool
  pub unavailable : Bool

-- An entry of the diagnosis, with `matches_codex` and the reason for skipping it.
pub record Diagnosis : Type 0 where
  pub entry : AuthEntry
  pub matches_codex : Bool
  pub skipped : String

pub data Body : Type 0 where
  failure : Message → Body
  page : Body
  status : Config → List (String × AccountRuntime) → List ResetRecord → Body
  accounts : List AccountOption → Body
  diagnoses : ℕ → List Diagnosis → Body
  raw : String → Body
  entries : List LogEntry → Body
  settings : Duration → Duration → List String → Body
  triggered : String → Body
  forced : String → Body
  exported : PluginState → Body
  imported : Body

-- A status code and a body.
abbrev pub Response : Type 0
Response = ℕ × Body

-- The fields of `PUT /settings`; the empty text is a field that is left out.
pub record SettingsRequest : Type 0 where
  pub refresh_interval : String
  pub trigger_lead_time : String
  pub enabled_accounts : List String

pub record Codec : Type 0 where
  pub settings : String → Result SettingsRequest
  pub yaml : String → Result YamlConfig
  -- The `auth_index` of a body, or the error of a body that is no JSON.
  pub auth_index : String → Result String
  pub state : String → Result PluginState
  pub marshal : PluginState → Option String
  pub unmarshal : String → Option PluginState
  pub parse_duration : String → Result Duration
  pub show_duration : Duration → String

-- What the host and the server answer, should the request ask them; no lister is one that is not wired.
pub record Answers : Type 0 where
  pub lister : Option (Result (List AccountOption))
  pub auths : Result (List AuthEntry)
  pub usage : CodexCredentials → Result String

-- The handlers' state: `state`, the file behind `statePath`, the worker, and the restart behind
-- `OnSettingsChanged`.
pub record Plugin (H : Type 0) : Type 0 where
  pub state : PluginState
  pub state_path : String
  pub disk : Disk
  pub running : Option (Running H)
  pub on_settings_changed : Option (PluginState → Option (Running H) → Running H)
