-- ===== src/Scenarios/Routes.antt =====
-- The theorems on the management routes, at work on concrete requests.
use cpa_plugin_codex_auto_re.Prelude.{not, ℕ, ◌≡◌, refl, ◌⊎◌, true, false, none, some, [], ◌∷◌}
use cpa_plugin_codex_auto_re.Models.{hours}
use cpa_plugin_codex_auto_re.Client.{GoError, ok, err}
use cpa_plugin_codex_auto_re.Config.{normalize_config}
use cpa_plugin_codex_auto_re.Config.Normal.{IsNormal}
use cpa_plugin_codex_auto_re.Store.{PluginState}
use cpa_plugin_codex_auto_re.Store.File.{fresh_state}
use cpa_plugin_codex_auto_re.Management.Paths.{is_resource_path, normalize_path}
use cpa_plugin_codex_auto_re.Management.Requests.{AuthEntry, Body, Codec, Answers, Plugin}
use cpa_plugin_codex_auto_re.Management.Handlers.{
  put_settings, import_state, restart_worker_from_state,
}
use cpa_plugin_codex_auto_re.Management.Dispatch.{handle, route_not_found}
use cpa_plugin_codex_auto_re.Management.Registered.{is_not_found, is_registered, handle-registered}
use cpa_plugin_codex_auto_re.Management.Safety.{resource_path_read_only}
use cpa_plugin_codex_auto_re.Management.Settings.{
  IsRefused, IsChanged, put_settings_lem, import_state_lem,
}
use cpa_plugin_codex_auto_re.Scenarios.Sample.{config, host, running}

abbrev pub codec : Codec
codec = record {
  settings = λ b.
      ok (record { refresh_interval = "12h"; trigger_lead_time = ""; enabled_accounts = "a" ∷ [] });
  yaml = λ b. err (GoError.plain "no yaml");
  auth_index = λ b. ok "a";
  state = λ b. ok fresh_state;
  marshal = λ s. some "S";
  unmarshal = λ b. some fresh_state;
  parse_duration = λ t. ok (hours 12);
  show_duration = λ d. "12h";
}

abbrev limited : AuthEntry
limited = record {
  id = "codex-a.json";
  auth_index = "a";
  path = "/auth/a.json";
  provider = "Codex";
  type_name = "";
  name = "";
  email = "";
  account = "";
  disabled = false;
  unavailable = true;
}

abbrev pub answers : Answers
answers = record { lister = none; auths = ok (limited ∷ []); usage = λ c. ok "usage" }

abbrev pub plugin : Plugin ℕ
plugin = record {
  state = record fresh_state { config = config };
  state_path = "main";
  disk = record { files = []; failing = 0; full = none; can_mkdir = true };
  running = some (running []);
  on_settings_changed = some (restart_worker_from_state 0);
}

resource_path_read_only_example :
    let (r, after) =
      handle host codec answers "POST" "/v0/resource/plugins/codex-auto-reset/reset" "{}" plugin in
    (after ≡ plugin) × ((r ≡ (200, Body.page)) ⊎ (r ≡ route_not_found))
unfolding is_resource_path
resource_path_read_only_example =
    resource_path_read_only host codec answers "POST" "/v0/resource/plugins/codex-auto-reset/reset"
      "{}" plugin refl

put_settings_lem_example :
    IsRefused plugin (put_settings host codec "{}" plugin)
    ⊎ IsChanged plugin (put_settings host codec "{}" plugin)
put_settings_lem_example = put_settings_lem host codec "{}" plugin

import_state_lem_example :
    let r = import_state host codec "{}" plugin in
    IsRefused plugin r
    ⊎ ((s : PluginState) × (codec.state "{}" ≡ ok s)
        × (r.1.state.config ≡ normalize_config s.config)
        × IsNormal r.1.state.config
        × (r.1.state.accounts ≡ s.accounts)
        × (r.1.state.logs ≡ plugin.state.logs)
        × (r.1.state.reset_history ≡ plugin.state.reset_history))
import_state_lem_example = import_state_lem host codec "{}" plugin

handle-registered_example :
    is_not_found
      (handle host codec answers "DELETE" "/v0/management/plugins/codex-auto-reset/reset" "{}"
        plugin).0
    ≡ not (is_registered "DELETE" (normalize_path "/v0/management/plugins/codex-auto-reset/reset"))
unfolding is_resource_path
handle-registered_example =
    handle-registered host codec answers "DELETE" "/v0/management/plugins/codex-auto-reset/reset"
      "{}" plugin refl
