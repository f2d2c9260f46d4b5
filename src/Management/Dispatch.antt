-- ===== src/Management/Dispatch.antt =====
-- `handle` of management.go: the dispatch of a request.
use cpa_plugin_codex_auto_re.Prelude.{String, Bool, not, ◌&&◌, if◌then◌else◌, str_eq}
use cpa_plugin_codex_auto_re.Models.{say}
use cpa_plugin_codex_auto_re.Worker.State.{Host}
use cpa_plugin_codex_auto_re.Management.Paths.{is_resource_path, normalize_path}
use cpa_plugin_codex_auto_re.Management.Requests.{Body, Response, Codec, Answers, Plugin}
use cpa_plugin_codex_auto_re.Management.Accounts.{debug_auth_list, accounts_json}
use cpa_plugin_codex_auto_re.Management.Handlers.{
  status_json, put_settings, check_all, check_one, reset_one, import_state, logs_json, debug_usage,
}

abbrev pub route_not_found : Response
route_not_found = (404, Body.failure (say "route not found"))

module _ {H : Type 0} (host : Host H) (codec : Codec) (answers : Answers) where
  -- The cases with `GET`.
  unfoldable pub get_route : Bool → String → Plugin H → Response
  get_route is_resource path p =
      if str_eq path "/status"
      then (if is_resource then (200, Body.page) else status_json host codec p)
      else if str_eq path "/accounts"
      then accounts_json p.state.config.enabled_accounts answers.lister
      else if str_eq path "/debug/auth-list"
      then debug_auth_list answers.auths
      else if str_eq path "/debug/usage"
      then debug_usage host codec answers p
      else if str_eq path "/logs"
      then logs_json host codec p
      else if str_eq path "/export"
      then (200, Body.exported p.state)
      else route_not_found

  -- The cases with `POST`.
  unfoldable pub post_route : String → String → Plugin H → Response × Plugin H
  post_route path body p =
      if str_eq path "/check"
      then check_one host codec body p
      else if str_eq path "/check/all"
      then check_all host codec p
      else if str_eq path "/reset"
      then reset_one host codec body p
      else if str_eq path "/import"
      then import_state host codec body p
      else (route_not_found, p)

  unfoldable pub route : Bool → String → String → String → Plugin H → Response × Plugin H
  route is_resource method path body p =
      if str_eq method "GET"
      then (get_route is_resource path p, p)
      else if str_eq method "POST"
      then post_route path body p
      else if str_eq method "PUT" && str_eq path "/settings"
      then put_settings host codec body p
      else (route_not_found, p)

  unfoldable pub handle : String → String → String → Plugin H → Response × Plugin H
  handle method raw_path body p =
      let path = normalize_path raw_path in
      if is_resource_path raw_path && not (str_eq method "GET" && str_eq path "/status")
      then (route_not_found, p)
      else route (is_resource_path raw_path) method path body p
