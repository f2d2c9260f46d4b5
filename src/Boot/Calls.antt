-- ===== src/Boot/Calls.antt =====
-- What a call from the host may change.
use cpa_plugin_codex_auto_re.Prelude.{
  ℕ, ◌≡◌, refl, ◌⊎◌, inl, inr, String, ◌||◌, Option, none, some, str_eq, Bool-cases, Option-cases,
}
use cpa_plugin_codex_auto_re.Client.{Result, ok, err, Result-cases}
use cpa_plugin_codex_auto_re.Worker.State.{Host}
use cpa_plugin_codex_auto_re.Management.Requests.{Codec, Plugin}
use cpa_plugin_codex_auto_re.Management.Dispatch.{handle}
use cpa_plugin_codex_auto_re.Management.Registration.{plugin_registration}
use cpa_plugin_codex_auto_re.Boot.Path.{FilePaths}
use cpa_plugin_codex_auto_re.Boot.Configure.{Coders, configure_plugin}
use cpa_plugin_codex_auto_re.Boot.Methods.{
  ManagementRequest, Entry, AbiMethods, Reply, Reads, response_of, disk_now, host_now,
  configured_as, replied, written, handle_management_request, handle_method, plugin_call,
}

module _ {H : Type 0} (host : Host H) (codec : Codec) (coders : Coders) (fp : FilePaths)
    (methods : AbiMethods) (schema : ℕ) (unmarshal : String → Result ManagementRequest) where
  -- The plugin was configured by the request.
  abbrev pub IsConfigured : Reads → String → Entry H → Plugin H → Result Reply → Type 0
  IsConfigured reads request e p reply =
      (configure_plugin host coders fp reads.stamp reads.read_error request reads.auths
          (disk_now host codec coders fp methods schema unmarshal e)
          (host_now host codec coders fp methods schema unmarshal e)
        ≡ ok p)
      × (reply ≡ ok (Reply.registered (plugin_registration schema)))

  -- The plugin that was there has handled the request.
  abbrev pub IsHandled : Reads → String → Entry H → Plugin H → Result Reply → Type 0
  IsHandled reads request e p reply =
      (q : Plugin H) × (req : ManagementRequest) × (e.plugin ≡ some q)
      × (unmarshal request ≡ ok req)
      × let r = handle host codec reads.answers req.method req.path req.body q in
        (r.1 ≡ p) × (reply ≡ ok (Reply.response (response_of r.0)))

  abbrev pub IsCareful : Reads → String → Entry H → (ℕ × Result Reply) × Entry H → Type 0
  IsCareful reads request e ((code, reply), after) =
      (after ≡ e)
      ⊎ ((code ≡ 0)
          × (p : Plugin H) × (after ≡ record e { plugin = some p })
          × (IsConfigured reads request e p reply ⊎ IsHandled reads request e p reply))

  configured_as-IsCareful :
      (reads : Reads) (request : String) (e : Entry H) (r : Result (Plugin H))
      → configure_plugin host coders fp reads.stamp reads.read_error request reads.auths
          (disk_now host codec coders fp methods schema unmarshal e)
          (host_now host codec coders fp methods schema unmarshal e)
        ≡ r
      → IsCareful reads request e (
          written host codec coders fp methods schema unmarshal
            (configured_as host codec coders fp methods schema unmarshal r e))
  configured_as-IsCareful reads request e (err x) h = inl refl
  configured_as-IsCareful reads request e (ok p) h = inr (refl, p, refl, inl (h, refl))

  handled-IsCareful :
      (reads : Reads) (request : String) (e : Entry H)
      → IsCareful reads request e (
          written host codec coders fp methods schema unmarshal (
            replied host codec coders fp methods schema unmarshal (
              handle_management_request host codec coders fp methods schema unmarshal reads.answers
                request e)))
  unfolding handle_management_request
  handled-IsCareful reads request e = elim (Result-cases (unmarshal request)) [
    | inr (x, n) ↦ rw n (inl refl)
    | inl (req, n) ↦ elim (Option-cases e.plugin) [
      | inl o ↦ rw (n, o) (inl refl)
      | inr (q, o) ↦ rw (n, o) (inr (refl, _, refl, inr (q, req, refl, refl, (refl, refl))))
    ]
  ]

  -- A call from the host leaves everything as it was, or it returns 0 and was a configuration that
  -- succeeded, or a management request that the configured plugin has handled. So a call that fails
  -- changes nothing, and before it is configured the plugin handles no request.
  pub plugin_call-IsCareful :
      (reads : Reads) (method : Option String) (request : String) (e : Entry H)
      → IsCareful reads request e
          (plugin_call host codec coders fp methods schema unmarshal reads method request e)
  unfolding plugin_call handle_method
  plugin_call-IsCareful reads none request e = inl refl
  plugin_call-IsCareful reads (some method) request e =
      elim (Bool-cases
        (str_eq method methods.plugin_register || str_eq method methods.plugin_reconfigure)) [
          | inl t ↦ rw t (configured_as-IsCareful reads request e _ refl)
          | inr t ↦ elim (Bool-cases (str_eq method methods.management_register)) [
            | inl m ↦ rw (t, m) (inl refl)
            | inr m ↦ elim (Bool-cases (str_eq method methods.management_handle)) [
              | inl k ↦ rw (t, m, k) (handled-IsCareful reads request e)
              | inr k ↦ rw (t, m, k) (inl refl)
            ]
          ]
        ]
