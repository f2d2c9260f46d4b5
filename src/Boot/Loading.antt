-- ===== src/Boot/Loading.antt =====
-- Credentials that are loaded through the host: `hostCredsLoader` on the calls of main.go to its host.
use cpa_plugin_codex_auto_re.Prelude.{
  ◌≡◌, ◌≢◌, ap, ◌∙◌, pos, select, String, true, Option, some, List, ◌∷◌,
}
use cpa_plugin_codex_auto_re.Models.{CodexCredentials}
use cpa_plugin_codex_auto_re.Client.{Result, ok}
use cpa_plugin_codex_auto_re.Auth.{Decoders, extract_codex_credentials}
use cpa_plugin_codex_auto_re.Management.Requests.{AuthEntry}
use cpa_plugin_codex_auto_re.Management.Accounts.{is_codex}
use cpa_plugin_codex_auto_re.Boot.Callbacks.{
  Envelope, HostApi, HostCalls, call_host_callback-ok, list_auths_via_host, get_auth_json_via_host,
  get_auth_json_via_host-ok,
}
use cpa_plugin_codex_auto_re.Boot.Creds.{is_named, host_creds_loader, host_creds_loader-ok}

module _ {F : Type 0} (d : Decoders F) (calls : HostCalls) (host : Option HostApi) where
  -- What is loaded for an account.
  abbrev pub loaded_creds : String → Result CodexCredentials
  loaded_creds id =
      host_creds_loader d (get_auth_json_via_host calls host) (list_auths_via_host calls host) id

  -- The host has answered a request for an auth file with 0 and this JSON in a successful envelope.
  abbrev pub IsGiven : AuthEntry → String → Type 0
  IsGiven a json =
      (api : HostApi) × (sent raw : String) × (env : Envelope) × (host ≡ some api)
      × (calls.get_payload a.auth_index ≡ ok sent)
      × (api calls.auth_get sent ≡ (pos 0, raw))
      × (calls.envelope raw ≡ ok env)
      × (env.ok ≡ true)
      × (calls.get_result env.result ≡ ok json)

  get_auth_json-IsGiven :
      (a : AuthEntry) (json : String)
      → get_auth_json_via_host calls host a.auth_index ≡ ok json
      → IsGiven a json
  get_auth_json-IsGiven a json h =
      let (result, called, got) = get_auth_json_via_host-ok calls host a.auth_index json h in
      let (api, sent, raw, env, there, encoded, returned, decodes, good, same) =
        call_host_callback-ok calls.envelope host calls.auth_get (calls.get_payload a.auth_index)
          result called in
      (api, sent, raw, env, there, encoded, returned, decodes, good, ap calls.get_result same ∙ got)

  -- Credentials that are loaded for an account come from the first auth file of the host that has the
  -- account's name as its identifier or its index: it is a Codex file, the host has answered a request for
  -- it with 0 and a successful envelope, and the credentials were extracted from the JSON in that; their
  -- access token and their account are not empty. A later file of that name is never used.
  pub loaded_creds-IsGiven :
      (id : String) (creds : CodexCredentials)
      → loaded_creds id ≡ ok creds
      → (files : List AuthEntry) × (a : AuthEntry) × (others : List AuthEntry) × (json : String)
        × (list_auths_via_host calls host ≡ ok files)
        × (select (is_named id) files ≡ a ∷ others)
        × (is_codex a ≡ true)
        × IsGiven a json
        × (extract_codex_credentials d json ≡ ok creds)
        × (creds.access_token ≢ "")
        × (creds.chat_gpt_account_id ≢ "")
  loaded_creds-IsGiven id creds h =
      let (files, a, others, json, listed, first, codex, got, made, token, account) =
        host_creds_loader-ok d (get_auth_json_via_host calls host) (list_auths_via_host calls host)
          id creds h in
      (
        files,
        a,
        others,
        json,
        listed,
        first,
        codex,
        get_auth_json-IsGiven a json got,
        made,
        token,
        account,
      )
