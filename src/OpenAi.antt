-- ===== src/OpenAi.antt =====
-- openai_client.go: the three requests to the ChatGPT backend over net/http.
-- An HTTP client is what it does with a request: it answers with a status and a body, or with an error.
-- `url.Parse` (of `http.NewRequest`), the JSON coders and `time.Now` are arguments.
pub mod Requests
pub mod Wire
pub mod Ticks
pub mod Answers
use Prim.Native.String.{◌++◌, len, slice}
use cpa_plugin_codex_auto_re.Prelude.{
  ◌≡◌, ℤ, pos, ℕ, String, Bool, not, ◌||◌, Option, none, some, List, [], ◌∷◌, if◌then◌else◌, str_eq,
  ltb_ℤ, leb_ℤ, leb,
}
use cpa_plugin_codex_auto_re.Models.{Time, Snapshot, CodexCredentials}
use cpa_plugin_codex_auto_re.Client.{GoError, ConsumeResponse, Result, ok, err}
use cpa_plugin_codex_auto_re.Quota.{
  Floats, ResetCreditsBody, parse_reset_credits_response, parse_consume_response,
}
use cpa_plugin_codex_auto_re.Quota.Usage.{parse_usage_response}
use cpa_plugin_codex_auto_re.Json.{Fields}
use cpa_plugin_codex_auto_re.Fsm.Machine.{Env}

pub data Method : Type 0 where
  get post : Method

abbrev pub method_name : Method → String
method_name get = "GET"
method_name post = "POST"

-- The body of a consume request: exactly these two fields.
pub record ConsumePayload : Type 0 where
  pub redeem_request_id : String
  pub credit_id : String

pub record Request : Type 0 where
  pub method : Method
  pub url : String
  -- In the order in which they are set.
  pub headers : List (String × String)
  pub payload : Option ConsumePayload

-- The bytes that a body yields, and the error that reading on gives, if there is one.
pub record BodyReader : Type 0 where
  pub bytes : String
  pub failure : Option GoError

pub record Answer : Type 0 where
  pub status_code : ℤ
  pub body : BodyReader

abbrev pub Transport : Type 0 → Type 0
Transport W = Request → W → Result Answer × W

pub record OpenAiClient (W : Type 0) : Type 0 where
  pub base_url : String
  pub http : Option (Transport W)

abbrev pub default_base_url : String
default_base_url = "https://chatgpt.com"

abbrev pub usage_endpoint_path : String
usage_endpoint_path = "/backend-api/wham/usage"

abbrev pub reset_credits_endpoint_path : String
reset_credits_endpoint_path = "/backend-api/wham/rate-limit-reset-credits"

abbrev pub consume_endpoint_path : String
consume_endpoint_path = "/backend-api/wham/rate-limit-reset-credits/consume"

abbrev pub codex_user_agent : String
codex_user_agent = "codex_cli_rs/0.76.0 (Debian 13.0.0; x86_64) WindowsTerminal"

-- 1 MiB.
abbrev pub body_limit : ℕ
body_limit = 1048576

-- `io.ReadAll(io.LimitReader(body, body_limit))`.
unfoldable pub read_limited : BodyReader → Result String
read_limited b =
    if leb body_limit (len b.bytes)
    then ok (slice b.bytes 0 body_limit)
    else elim (b.failure) [ none ↦ ok b.bytes | some e ↦ err e ]

abbrev pub is_success : ℤ → Bool
is_success code = not (ltb_ℤ code (pos 200) || leb_ℤ (pos 300) code)

-- The headers of `setAuthHeaders`, before those that are set after it.
unfoldable pub set_auth_headers : CodexCredentials → List (String × String) → List (String × String)
set_auth_headers creds later =
    ("Authorization", "Bearer " ++ creds.access_token)
    ∷ (if not (str_eq creds.chat_gpt_account_id "")
        then ("Chatgpt-Account-Id", creds.chat_gpt_account_id)
          ∷ ("User-Agent", codex_user_agent)
          ∷ later
        else ("User-Agent", codex_user_agent) ∷ later)

-- What `Consume` returns: with an error, an empty response.
abbrev pub response_of : Result ConsumeResponse → ConsumeResponse × Option GoError
response_of (ok resp) = (resp, none)
response_of (err e) = (record { code = ""; windows_reset = pos 0 }, some e)

-- What the client calls. `parse_url` gives the path of a URL, or why it is none.
pub record Calls (W F : Type 0) : Type 0 where
  pub default_http : Transport W
  pub parse_url : String → Result String
  pub now : W → Time × W
  pub parse_time : String → Option Time
  pub unmarshal_credits : String → Result ResetCreditsBody
  pub unmarshal_usage : String → Result (Fields F)
  pub unmarshal_consume : String → Result ConsumeResponse

-- Code that may fail and acts on the world.
abbrev pub Io : Type 0 → Type 0 → Type 0
Io W A = W → Result A × W

abbrev pub and_then : {W A B : Type 0} → Result A × W → (A → Io W B) → Result B × W
and_then (ok a, w) k = k a w
and_then (err e, w) k = (err e, w)

infixl 5 ◌>>=◌
abbrev pub ◌>>=◌ : {W A B : Type 0} → Io W A → (A → Io W B) → Io W B
◌>>=◌ m k w = and_then (m w) k

abbrev pub of_result : {W A : Type 0} → Result A → Io W A
of_result r w = (r, w)

module _ {W : Type 0} (fl : Floats) (calls : Calls W fl.F) (client : OpenAiClient W) where
  unfoldable pub base_url : String
  base_url = if not (str_eq client.base_url "") then client.base_url else default_base_url

  unfoldable pub http_client : Transport W
  http_client = elim (client.http) [ some t ↦ t | none ↦ calls.default_http ]

  abbrev pub time_now : Io W Time
  time_now w = (ok (calls.now w).0, (calls.now w).1)

  -- The body of an answer whose status is 2xx.
  abbrev pub checked : Method → String → ℤ → Result String → Result String
  checked method path code (err e) = err e
  checked method path code (ok body) =
      if is_success code
      then ok body
      else err (GoError.http_status (method_name method) path code body)

  abbrev pub accepted : Method → String → Answer → Result String
  accepted method path answer = checked method path answer.status_code (read_limited answer.body)

  -- `do`, of a request for `url` with the path `path`.
  unfoldable pub do_request : String → Request → Io W String
  do_request path req = do answer ← http_client req; of_result (accepted req.method path answer)

  unfoldable pub get_request : String → CodexCredentials → Request
  get_request endpoint creds = record {
    method = get;
    url = base_url ++ endpoint;
    headers = set_auth_headers creds (("Accept", "application/json") ∷ []);
    payload = none;
  }

  -- The two GET requests; `http.NewRequest` fails before anything is sent.
  unfoldable pub get_body : String → CodexCredentials → Io W String
  get_body endpoint creds = do
    path ← of_result (calls.parse_url (base_url ++ endpoint))
    do_request path (get_request endpoint creds)

  unfoldable pub list_credits : CodexCredentials → Io W Snapshot
  list_credits creds = do
    body ← get_body reset_credits_endpoint_path creds
    now ← time_now
    of_result (parse_reset_credits_response calls.parse_time calls.unmarshal_credits body now)

  unfoldable pub get_usage : CodexCredentials → Io W Snapshot
  get_usage creds = do
    body ← get_body usage_endpoint_path creds
    now ← time_now
    of_result (parse_usage_response fl calls.unmarshal_usage body now)

  -- The request itself; encoding two texts does not fail.
  unfoldable pub consume_request : CodexCredentials → String → String → Request
  consume_request creds key credit = record {
    method = post;
    url = base_url ++ consume_endpoint_path;
    headers = set_auth_headers creds (("Content-Type", "application/json") ∷ []);
    payload = some (record { redeem_request_id = key; credit_id = credit });
  }

  abbrev pub consume_checked : CodexCredentials → String → String → Io W ConsumeResponse
  consume_checked creds key credit = do
    path ← of_result (calls.parse_url (base_url ++ consume_endpoint_path))
    body ← do_request path (consume_request creds key credit)
    of_result (parse_consume_response calls.unmarshal_consume body)

  unfoldable pub consume : CodexCredentials → String → String → Io W ConsumeResponse
  consume creds key credit =
      if str_eq key "" || str_eq credit ""
      then of_result (
          err (
            GoError.plain
              "consume: redeem_request_id and credit_id are both required (empty defeats §2.1 safety)"))
      else consume_checked creds key credit

  -- The client as the `ResetClient` of a state machine.
  abbrev pub reset_client : Env W → Env W
  reset_client env = record env {
    list_credits = list_credits;
    get_usage = get_usage;
    consume = λ creds key credit w.
        (response_of (consume creds key credit w).0, (consume creds key credit w).1);
  }
