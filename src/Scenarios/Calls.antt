-- ===== src/Scenarios/Calls.antt =====
-- A call from the host, at work on a plugin that is configured.
use cpa_plugin_codex_auto_re.Prelude.{ℕ, some}
use cpa_plugin_codex_auto_re.Client.{GoError, ok}
use cpa_plugin_codex_auto_re.Boot.Methods.{ManagementRequest, Entry, AbiMethods, Reads, plugin_call}
use cpa_plugin_codex_auto_re.Boot.Calls.{IsCareful, plugin_call-IsCareful}
use cpa_plugin_codex_auto_re.Scenarios.Sample.{host}
use cpa_plugin_codex_auto_re.Scenarios.Routes.{codec, answers, plugin}
use cpa_plugin_codex_auto_re.Scenarios.Restart.{coders, paths}
use cpa_plugin_codex_auto_re.Scenarios.Start.{listed}

abbrev methods : AbiMethods
methods = record {
  plugin_register = "plugin.register";
  plugin_reconfigure = "plugin.reconfigure";
  management_register = "management.register";
  management_handle = "management.handle";
}

abbrev request : ManagementRequest
request = record {
  method = "POST";
  path = "/v0/management/plugins/codex-auto-reset/check";
  body = "{}";
}

abbrev entry : Entry ℕ
entry = record { disk = plugin.disk; host = 7; plugin = some plugin }

abbrev reads : Reads
reads = record { auths = listed; stamp = "t"; read_error = GoError.plain ""; answers = answers }

plugin_call-IsCareful_example :
    IsCareful host codec coders paths methods 1
      (λ raw. ok request)
      reads
      "{}"
      entry
      (plugin_call host codec coders paths methods 1
        (λ raw. ok request)
        reads
        (some "management.handle")
        "{}"
        entry)
plugin_call-IsCareful_example =
    plugin_call-IsCareful host codec coders paths methods 1 (λ raw. ok request) reads
      (some "management.handle") "{}" entry
