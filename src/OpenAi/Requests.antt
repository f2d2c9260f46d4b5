-- ===== src/OpenAi/Requests.antt =====
-- What the requests of openai_client.go must look like, told without the code that builds them.
use Prim.Native.String.{◌++◌ as join}
use cpa_plugin_codex_auto_re.Prelude.{
  ◌≡◌, ◌≢◌, refl, ◌⊎◌, String, some, none, List, [], ◌∷◌, ◌++◌, if◌then◌else◌, str_eq, lookup,
  arith,
}
use cpa_plugin_codex_auto_re.Models.{
  State, idle, armed, confirming, resetting, verifying, done, CodexCredentials,
}
use cpa_plugin_codex_auto_re.Client.{GoError, Result, ok, err}
use cpa_plugin_codex_auto_re.Quota.{Floats}
use cpa_plugin_codex_auto_re.Fsm.Machine.{AccountFsm}
use cpa_plugin_codex_auto_re.OpenAi.{
  Request, ConsumePayload, Method, OpenAiClient, Calls, base_url, get_request, consume_request,
  set_auth_headers,
}

-- The backend, unless the client has a base URL of its own.
abbrev pub server_of : {W : Type 0} → OpenAiClient W → String
server_of client = if str_eq client.base_url "" then "https://chatgpt.com" else client.base_url

abbrev IsAuthorized : CodexCredentials → Request → Type 0
IsAuthorized creds req =
    lookup "Authorization" req.headers ≡ some (join "Bearer " creds.access_token)

abbrev pub IsGet : String → CodexCredentials → Request → Type 0
IsGet url creds req =
    (req.method ≡ Method.get) × (req.url ≡ url) × (req.payload ≡ none) × IsAuthorized creds req

-- A POST that redeems the credit `credit` under the idempotency key `key`.
abbrev pub IsRedeem : String → CodexCredentials → String → String → Request → Type 0
IsRedeem url creds key credit req =
    (req.method ≡ Method.post)
    × (req.url ≡ url)
    × ((body : ConsumePayload) × (req.payload ≡ some body)
        × (body.redeem_request_id ≡ key)
        × (body.credit_id ≡ credit))
    × IsAuthorized creds req

module _ (parse_url : String → Result String) where
  -- One request for the URL, as described, or none at all if the URL does not parse.
  abbrev pub IsOne : String → (Request → Type 0) → List Request → Type 0
  IsOne url Described reqs =
      ((path : String) × (req : Request) × (parse_url url ≡ ok path)
        × (reqs ≡ req ∷ [])
        × Described req)
      ⊎ ((e : GoError) × (parse_url url ≡ err e) × (reqs ≡ []))

  -- A GET for the credits, and after it nothing more or a GET for the usage.
  abbrev AreReads : String → CodexCredentials → List Request → Type 0
  AreReads server creds reqs =
      let credits_url = join server "/backend-api/wham/rate-limit-reset-credits" in
      let usage_url = join server "/backend-api/wham/usage" in
      (first : List Request) × (later : List Request) × (reqs ≡ first ++ later)
      × IsOne credits_url (IsGet credits_url creds) first
      × ((later ≡ []) ⊎ IsOne usage_url (IsGet usage_url creds) later)

  -- One redeeming POST, unless the key or the credit is empty.
  abbrev pub AreRedeems : String → CodexCredentials → String → String → List Request → Type 0
  AreRedeems server creds key credit reqs =
      let url = join server "/backend-api/wham/rate-limit-reset-credits/consume" in
      ((key ≢ "") × (credit ≢ "") × IsOne url (IsRedeem url creds key credit) reqs)
      ⊎ (((key ≡ "") ⊎ (credit ≡ "")) × (reqs ≡ []))

  -- The requests that a tick of the account may send.
  abbrev pub AreRequests : String → State → AccountFsm → List Request → Type 0
  AreRequests server idle f reqs = AreReads server f.creds reqs
  AreRequests server armed f reqs = reqs ≡ []
  AreRequests server confirming f reqs = AreReads server f.creds reqs
  AreRequests server resetting f reqs =
      AreRedeems server f.creds f.attempt.redeem_request_id f.attempt.target_credit_id reqs
  AreRequests server verifying f reqs = AreReads server f.creds reqs
  AreRequests server done f reqs = reqs ≡ []

module _ {W : Type 0} (fl : Floats) (calls : Calls W fl.F) (client : OpenAiClient W) where
  pub base_url_lem : base_url fl calls client ≡ server_of client
  unfolding base_url
  base_url_lem = ground arith

  pub get_request-IsGet :
      (endpoint : String) (creds : CodexCredentials)
      → IsGet (join (server_of client) endpoint) creds (get_request fl calls client endpoint creds)
  unfolding get_request set_auth_headers
  get_request-IsGet endpoint creds = (refl, rw base_url_lem refl, refl, refl)

  pub consume_request-IsRedeem :
      (creds : CodexCredentials) (key credit : String)
      → IsRedeem
          (join (server_of client) "/backend-api/wham/rate-limit-reset-credits/consume")
          creds
          key
          credit
          (consume_request fl calls client creds key credit)
  unfolding consume_request set_auth_headers
  consume_request-IsRedeem creds key credit =
      (refl, rw base_url_lem refl, (_, refl, refl, refl), refl)
