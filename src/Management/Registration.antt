-- ===== src/Management/Registration.antt =====
-- What the plugin tells the host about itself: `pluginRegistration` and `managementRegistrationResponse` of
-- main.go. The version of the host's schema is an argument.
use Prim.Native.String.{◌++◌}
use cpa_plugin_codex_auto_re.Prelude.{ℕ, String, Bool, true, List, [], ◌∷◌}

pub record Metadata : Type 0 where
  pub name : String
  pub version : String
  pub author : String
  pub git_hub_repository : String

pub record Registration : Type 0 where
  pub schema_version : ℕ
  pub metadata : Metadata
  pub management_api : Bool

abbrev pub plugin_version : String
plugin_version = "0.1.14"

abbrev pub plugin_registration : ℕ → Registration
plugin_registration schema = record {
  schema_version = schema;
  metadata = record {
    name = "Codex Auto Reset";
    version = plugin_version;
    author = "Jeffery";
    git_hub_repository = "https://github.com/JefferyZhang2019/cpa-plugin-codex-auto-reset";
  };
  management_api = true;
}

pub record ManagementRoute : Type 0 where
  pub method : String
  pub path : String

pub record ResourceRoute : Type 0 where
  pub path : String
  pub menu : String
  pub description : String

pub record ManagementRegistration : Type 0 where
  pub routes : List ManagementRoute
  pub resources : List ResourceRoute

-- A route under the plugin's name.
abbrev pub plugin_route : String → String → ManagementRoute
plugin_route method path = record { method = method; path = "/plugins/codex-auto-reset" ++ path }

abbrev pub management_registration_response : ManagementRegistration
management_registration_response = record {
  routes =
      plugin_route "GET" "/status"
      ∷ plugin_route "GET" "/accounts"
      ∷ plugin_route "GET" "/debug/auth-list"
      ∷ plugin_route "GET" "/debug/usage"
      ∷ plugin_route "GET" "/logs"
      ∷ plugin_route "PUT" "/settings"
      ∷ plugin_route "POST" "/check"
      ∷ plugin_route "POST" "/check/all"
      ∷ plugin_route "POST" "/reset"
      ∷ plugin_route "GET" "/export"
      ∷ plugin_route "POST" "/import"
      ∷ [];
  resources =
      record {
        path = "/status";
        menu = "Codex Auto Reset";
        description = "Auto-redeem Codex Reset Bank credits before they expire.";
      }
      ∷ [];
}
