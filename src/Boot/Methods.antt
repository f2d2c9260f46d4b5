-- ===== src/Boot/Methods.antt =====
-- The calls from the host to the plugin in main.go: `handleMethod`, `handleManagementRequest` with its
-- headers, `cliproxyPluginCall` and `cliproxyPluginShutdown`. The names of the methods in package pluginabi
-- and the decoder of a request are arguments. The value in an envelope is the one that is given to the
-- encoder, so that encoding does not fail; the copies to and from C are left out.
use Prim.Native.String.{◌++◌}
use text.Mathlib.Text.{starts_with}
use cpa_plugin_codex_auto_re.Prelude.{
  ℕ, String, ◌||◌, Option, none, some, List, [], ◌∷◌, if◌then◌else◌, str_eq,
}
use cpa_plugin_codex_auto_re.Models.{Message, say, Value}
use cpa_plugin_codex_auto_re.Client.{GoError, Result, ok, err}
use cpa_plugin_codex_auto_re.Store.Disk.{Disk}
use cpa_plugin_codex_auto_re.Worker.State.{Running, Host, stop}
use cpa_plugin_codex_auto_re.Management.Requests.{AuthEntry, Body, Response, Codec, Answers, Plugin}
use cpa_plugin_codex_auto_re.Management.Dispatch.{handle}
use cpa_plugin_codex_auto_re.Management.Registration.{
  Registration, ManagementRegistration, plugin_registration, management_registration_response,
}
use cpa_plugin_codex_auto_re.Boot.Path.{FilePaths}
use cpa_plugin_codex_auto_re.Boot.Configure.{Coders, configure_plugin}

-- `managementRequest`, as far as it is read.
pub record ManagementRequest : Type 0 where
  pub method : String
  pub path : String
  pub body : String

-- `pluginapi.ManagementResponse`; headers in the order in which they are set.
pub record ManagementResponse : Type 0 where
  pub status_code : ℕ
  pub headers : List (String × String)
  pub body : Body

-- The content type that `handle` returns with a body.
abbrev pub content_type_of : Body → String
content_type_of Body.page = "text/html; charset=utf-8"
content_type_of _ = "application/json"

abbrev pub management_response_headers : String → List (String × String)
management_response_headers content_type =
    ("Content-Type", content_type)
    ∷ (if starts_with content_type "text/html"
        then ("Cache-Control", "no-store, no-cache, must-revalidate")
          ∷ ("Pragma", "no-cache")
          ∷ ("Expires", "0")
          ∷ []
        else [])

abbrev pub mgmt_json_response : ℕ → Message → ManagementResponse
mgmt_json_response status message = record {
  status_code = status;
  headers = ("Content-Type", "application/json") ∷ [];
  body = Body.failure message;
}

abbrev pub response_of : Response → ManagementResponse
response_of (status, body) = record {
  status_code = status;
  headers = management_response_headers (content_type_of body);
  body = body;
}

-- The globals of main.go: the disk and the host as they are while the plugin is not configured, and what
-- it is once it is (`globalHandlers` with its state and worker).
pub record Entry (H : Type 0) : Type 0 where
  pub disk : Disk
  pub host : H
  pub plugin : Option (Plugin H)

-- The names in package pluginabi.
pub record AbiMethods : Type 0 where
  pub plugin_register : String
  pub plugin_reconfigure : String
  pub management_register : String
  pub management_handle : String

-- The value in an envelope.
pub data Reply : Type 0 where
  registered : Registration → Reply
  routes : ManagementRegistration → Reply
  response : ManagementResponse → Reply
  failed : (code message : String) → Reply

-- What a call reads besides its request: the list of auth files that the host gives, the quarantine stamp,
-- the error of a failed read of the state file, and what a handler is answered.
pub record Reads : Type 0 where
  pub auths : Result (List AuthEntry)
  pub stamp : String
  pub read_error : GoError
  pub answers : Answers

module _ {H : Type 0} (host : Host H) (codec : Codec) (coders : Coders) (fp : FilePaths)
    (methods : AbiMethods) (schema : ℕ) (unmarshal : String → Result ManagementRequest) where
  abbrev pub disk_now : Entry H → Disk
  disk_now e = elim (e.plugin) [ none ↦ e.disk | some p ↦ p.disk ]

  abbrev pub host_of : Option (Running H) → H → H
  host_of none h = h
  host_of (some r) h = r.out.host

  abbrev pub host_now : Entry H → H
  host_now e = elim (e.plugin) [ none ↦ e.host | some p ↦ host_of p.running e.host ]

  abbrev pub handled : Response × Plugin H → Entry H → ManagementResponse × Entry H
  handled (r, p) e = (response_of r, record e { plugin = some p })

  abbrev pub handled_by :
      Answers → ManagementRequest → Option (Plugin H) → Entry H → ManagementResponse × Entry H
  handled_by answers req none e = (mgmt_json_response 503 (say "plugin not configured"), e)
  handled_by answers req (some p) e =
      handled (handle host codec answers req.method req.path req.body p) e

  abbrev pub with_request :
      Answers → Result ManagementRequest → Entry H → ManagementResponse × Entry H
  with_request answers (err x) e = (
    mgmt_json_response 400
        (record { format = "invalid management request: %s"; args = Value.err_text x ∷ [] }),
    e,
  )
  with_request answers (ok req) e = handled_by answers req e.plugin e

  unfoldable pub handle_management_request :
      Answers → String → Entry H → ManagementResponse × Entry H
  handle_management_request answers raw e = with_request answers (unmarshal raw) e

  -- The reply to a configuration, which replaces the plugin.
  abbrev pub configured_as : Result (Plugin H) → Entry H → Result Reply × Entry H
  configured_as (err x) e = (err x, e)
  configured_as (ok p) e =
      (ok (Reply.registered (plugin_registration schema)), record e { plugin = some p })

  abbrev pub replied : ManagementResponse × Entry H → Result Reply × Entry H
  replied (r, e) = (ok (Reply.response r), e)

  unfoldable pub handle_method : Reads → String → String → Entry H → Result Reply × Entry H
  handle_method reads method request e =
      if str_eq method methods.plugin_register || str_eq method methods.plugin_reconfigure
      then configured_as
          (configure_plugin host coders fp reads.stamp reads.read_error request reads.auths
            (disk_now e) (host_now e))
          e
      else if str_eq method methods.management_register
      then (ok (Reply.routes management_registration_response), e)
      else if str_eq method methods.management_handle
      then replied (handle_management_request reads.answers request e)
      else (ok (Reply.failed "unknown_method" ("unknown method: " ++ method)), e)

  -- The return code and what is written; an error is written as the envelope `plugin_error` with its text.
  -- No method is a null pointer.
  abbrev pub written : Result Reply × Entry H → (ℕ × Result Reply) × Entry H
  written (err x, e) = ((1, err x), e)
  written (ok r, e) = ((0, ok r), e)

  unfoldable pub plugin_call :
      Reads → Option String → String → Entry H → (ℕ × Result Reply) × Entry H
  plugin_call reads none request e =
      ((1, ok (Reply.failed "invalid_method" "method is required")), e)
  plugin_call reads (some method) request e = written (handle_method reads method request e)

  -- The worker is told to stop.
  abbrev pub stopped : Plugin H → Plugin H
  stopped p = elim (p.running) [ none ↦ p | some r ↦ record p { running = some (stop r).1 } ]

  unfoldable pub plugin_shutdown : Entry H → Entry H
  plugin_shutdown e = elim (e.plugin) [ none ↦ e | some p ↦ record e { plugin = some (stopped p) } ]
