-- ===== src/OpenAi/Wire.antt =====
-- The requests that reach the wire when a state machine runs on the client of openai_client.go.
use Prim.Native.String.{◌++◌ as join}
use mathlib.Core.List.{append-nil}
use cpa_plugin_codex_auto_re.Prelude.{
  ◌≡◌, refl, inl, inr, String, ◌||◌, Option, none, some, List, [], ◌∷◌, ◌++◌, if◌then◌else◌, str_eq,
  Bool-cases, arith,
}
use cpa_plugin_codex_auto_re.Models.{CodexCredentials}
use cpa_plugin_codex_auto_re.Client.{Result, ok, err, Result-cases}
use cpa_plugin_codex_auto_re.Quota.{Floats}
use cpa_plugin_codex_auto_re.Fsm.Machine.{Env, Machine}
use cpa_plugin_codex_auto_re.Fsm.Tick.{step_locked}
use cpa_plugin_codex_auto_re.Fsm.Trace.{Traced, traced, Sent, step_locked-Sent}
use cpa_plugin_codex_auto_re.OpenAi.{
  Request, Transport, OpenAiClient, Calls, base_url, get_request, consume_request, do_request,
  http_client, get_body, list_credits, get_usage, consume, reset_client, response_of,
  usage_endpoint_path, reset_credits_endpoint_path, consume_endpoint_path,
}

-- The requests sent, in order.
abbrev pub Wire : Type 0 → Type 0
Wire W = Traced W Request

abbrev pub recorded : {W : Type 0} → Transport W → Transport (Wire W)
recorded t req s =
    ((t req s.inner).0, record { inner = (t req s.inner).1; sent = s.sent ++ req ∷ [] })

abbrev pub recorded_http : {W : Type 0} → Option (Transport W) → Option (Transport (Wire W))
recorded_http none = none
recorded_http (some t) = some (recorded t)

-- The same client and calls, with each request written down.
abbrev pub recorded_client : {W : Type 0} → OpenAiClient W → OpenAiClient (Wire W)
recorded_client c = record { base_url = c.base_url; http = recorded_http c.http }

abbrev pub recorded_calls : {W F : Type 0} → Calls W F → Calls (Wire W) F
recorded_calls calls = record {
  default_http = recorded calls.default_http;
  parse_url = calls.parse_url;
  now = λ s. ((calls.now s.inner).0, record s { inner = (calls.now s.inner).1 });
  parse_time = calls.parse_time;
  unmarshal_credits = calls.unmarshal_credits;
  unmarshal_usage = calls.unmarshal_usage;
  unmarshal_consume = calls.unmarshal_consume;
}

-- A request is sent if `http.NewRequest` accepts its URL.
abbrev pub if_parsed : Result String → Request → List Request
if_parsed (ok path) req = req ∷ []
if_parsed (err e) req = []

module _ {W : Type 0} (fl : Floats) (calls : Calls W fl.F) (client : OpenAiClient W) where
  abbrev pub get_sent : String → CodexCredentials → List Request
  get_sent endpoint creds =
      if_parsed (calls.parse_url (join (base_url fl calls client) endpoint))
        (get_request fl calls client endpoint creds)

  -- A consume request needs its key and its credit.
  abbrev pub consume_sent : CodexCredentials → String → String → List Request
  consume_sent creds key credit =
      if str_eq key "" || str_eq credit ""
      then []
      else if_parsed (calls.parse_url (join (base_url fl calls client) consume_endpoint_path))
          (consume_request fl calls client creds key credit)

  do_request_wire :
      (path : String) (req : Request) (s : Wire W)
      → do_request fl (recorded_calls calls) (recorded_client client) path req s ≡ (
        (do_request fl calls client path req s.inner).0,
        record {
          inner = (do_request fl calls client path req s.inner).1;
          sent = s.sent ++ req ∷ [];
        },
      )
  unfolding do_request http_client
  do_request_wire path req s = ground arith

  base_same : base_url fl (recorded_calls calls) (recorded_client client) ≡ base_url fl calls client
  unfolding base_url
  base_same = refl

  get_request_same :
      (endpoint : String) (creds : CodexCredentials)
      → get_request fl (recorded_calls calls) (recorded_client client) endpoint creds
        ≡ get_request fl calls client endpoint creds
  unfolding get_request
  get_request_same endpoint creds = rw base_same refl

  consume_request_same :
      (creds : CodexCredentials) (key credit : String)
      → consume_request fl (recorded_calls calls) (recorded_client client) creds key credit
        ≡ consume_request fl calls client creds key credit
  unfolding consume_request
  consume_request_same creds key credit = rw base_same refl

  get_body_wire :
      (endpoint : String) (creds : CodexCredentials) (s : Wire W)
      → get_body fl (recorded_calls calls) (recorded_client client) endpoint creds s ≡ (
        (get_body fl calls client endpoint creds s.inner).0,
        record {
          inner = (get_body fl calls client endpoint creds s.inner).1;
          sent = s.sent ++ get_sent endpoint creds;
        },
      )
  unfolding get_body
  get_body_wire endpoint creds s =
      elim (Result-cases (calls.parse_url (join (base_url fl calls client) endpoint))) [
        | inl (path, e) ↦
            rw (base_same, get_request_same endpoint creds, e)
              (rw (do_request_wire path (get_request fl calls client endpoint creds) s) refl)
        | inr (x, e) ↦ rw (base_same, e, append-nil) refl
      ]

  list_credits_wire :
      (creds : CodexCredentials) (s : Wire W)
      → list_credits fl (recorded_calls calls) (recorded_client client) creds s ≡ (
        (list_credits fl calls client creds s.inner).0,
        record {
          inner = (list_credits fl calls client creds s.inner).1;
          sent = s.sent ++ get_sent reset_credits_endpoint_path creds;
        },
      )
  unfolding list_credits
  list_credits_wire creds s = ground (arith, get_body_wire reset_credits_endpoint_path creds s)

  get_usage_wire :
      (creds : CodexCredentials) (s : Wire W)
      → get_usage fl (recorded_calls calls) (recorded_client client) creds s ≡ (
        (get_usage fl calls client creds s.inner).0,
        record {
          inner = (get_usage fl calls client creds s.inner).1;
          sent = s.sent ++ get_sent usage_endpoint_path creds;
        },
      )
  unfolding get_usage
  get_usage_wire creds s = ground (arith, get_body_wire usage_endpoint_path creds s)

  consume_wire :
      (creds : CodexCredentials) (key credit : String) (s : Wire W)
      → consume fl (recorded_calls calls) (recorded_client client) creds key credit s ≡ (
        (consume fl calls client creds key credit s.inner).0,
        record {
          inner = (consume fl calls client creds key credit s.inner).1;
          sent = s.sent ++ consume_sent creds key credit;
        },
      )
  unfolding consume
  consume_wire creds key credit s = elim (Bool-cases (str_eq key "" || str_eq credit "")) [
    | inl t ↦ rw (t, append-nil) refl
    | inr t ↦
        elim (Result-cases
          (calls.parse_url (join (base_url fl calls client) consume_endpoint_path))) [
            | inl (path, e) ↦
                rw (t, base_same, consume_request_same creds key credit, e)
                  (rw (do_request_wire path (consume_request fl calls client creds key credit) s)
                    (ground arith))
            | inr (x, e) ↦ rw (t, base_same, e, append-nil) refl
          ]
  ]

  -- The rest of an environment, which sends nothing.
  abbrev pub on_wire : Env W → Env (Wire W)
  on_wire env = traced env (λ c. []) (λ c. []) (λ c key credit. [])

  abbrev pub wired_client : Env W → Env (Wire W)
  wired_client env = reset_client fl (recorded_calls calls) (recorded_client client) (on_wire env)

  -- The client over the wire is the client that records nothing, with its requests written down.
  wired_client-traced :
      (env : Env W)
      → wired_client env
        ≡ traced
            (reset_client fl calls client env)
            (get_sent reset_credits_endpoint_path)
            (get_sent usage_endpoint_path)
            consume_sent
  wired_client-traced env i = record {
    now = λ s. ((env.now s.inner).0, record s { inner = (env.now s.inner).1 });
    list_credits = λ creds s. list_credits_wire creds s i;
    get_usage = λ creds s. get_usage_wire creds s i;
    consume = λ creds key credit s.
        (response_of (consume_wire creds key credit s i).0, (consume_wire creds key credit s i).1);
    new_uuid = λ s. ((env.new_uuid s.inner).0, record s { inner = (env.new_uuid s.inner).1 });
    logf = λ call s. record s { inner = env.logf call s.inner };
  }

  -- The calls of the client's parts that a tick makes.
  pub tick-Sent :
      (env : Env W) (m : Machine (Wire W))
      → Sent
          (reset_client fl calls client env)
          (get_sent reset_credits_endpoint_path)
          (get_sent usage_endpoint_path)
          consume_sent
          m.fsm.state
          m
          (step_locked (wired_client env) m).1
  tick-Sent env m = rw (wired_client-traced env) (step_locked-Sent _ _ _ _ m)
