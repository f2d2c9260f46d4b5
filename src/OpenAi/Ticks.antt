-- ===== src/OpenAi/Ticks.antt =====
-- What a tick of a state machine on the client of openai_client.go puts on the wire.
use Prim.Native.String.{◌++◌ as join}
use mathlib.Core.List.{append-nil, append_assoc}
use cpa_plugin_codex_auto_re.Prelude.{
  ◌≡◌, refl, sym, ◌∙◌, inl, inr, String, ◌||◌, List, [], ◌++◌, str_eq, eq_iff, Bool-cases, arith,
  false,
}
use cpa_plugin_codex_auto_re.Models.{
  State, idle, armed, confirming, resetting, verifying, done, CodexCredentials,
}
use cpa_plugin_codex_auto_re.Client.{Result-cases}
use cpa_plugin_codex_auto_re.Quota.{Floats}
use cpa_plugin_codex_auto_re.Fsm.Machine.{Env, AccountFsm, Machine}
use cpa_plugin_codex_auto_re.Fsm.Tick.{step_locked}
use cpa_plugin_codex_auto_re.Fsm.Trace.{first_sent, then_sent}
use cpa_plugin_codex_auto_re.OpenAi.{
  Request, OpenAiClient, Calls, reset_client, usage_endpoint_path, reset_credits_endpoint_path,
  consume_endpoint_path, get_request, consume_request,
}
use cpa_plugin_codex_auto_re.OpenAi.Requests.{
  server_of, IsGet, IsRedeem, IsOne, AreRedeems, AreRequests, base_url_lem, get_request-IsGet,
  consume_request-IsRedeem,
}
use cpa_plugin_codex_auto_re.OpenAi.Wire.{Wire, get_sent, consume_sent, wired_client, tick-Sent}

module _ {W : Type 0} (fl : Floats) (calls : Calls W fl.F) (client : OpenAiClient W) where
  abbrev server : String
  server = server_of client

  get_sent-IsOne :
      (endpoint : String) (creds : CodexCredentials)
      → IsOne calls.parse_url
          (join server endpoint)
          (IsGet (join server endpoint) creds)
          (get_sent fl calls client endpoint creds)
  get_sent-IsOne endpoint creds = elim (Result-cases (calls.parse_url (join server endpoint))) [
    | inl (path, e) ↦ inl (
      path,
      get_request fl calls client endpoint creds,
      e,
      rw (base_url_lem fl calls client, e) refl,
      get_request-IsGet fl calls client endpoint creds,
    )
    | inr (x, e) ↦ inr (x, e, rw (base_url_lem fl calls client, e) refl)
  ]

  consume_sent-IsOne :
      (creds : CodexCredentials) (key credit : String)
      → (str_eq key "" || str_eq credit "") ≡ false
      → let url = join server consume_endpoint_path in
        IsOne calls.parse_url url
          (IsRedeem url creds key credit)
          (consume_sent fl calls client creds key credit)
  consume_sent-IsOne creds key credit t =
      elim (Result-cases (calls.parse_url (join server consume_endpoint_path))) [
        | inl (path, e) ↦ inl (
          path,
          consume_request fl calls client creds key credit,
          e,
          rw (t, base_url_lem fl calls client, e) refl,
          consume_request-IsRedeem fl calls client creds key credit,
        )
        | inr (x, e) ↦ inr (x, e, rw (t, base_url_lem fl calls client, e) refl)
      ]

  consume_sent-AreRedeems :
      (creds : CodexCredentials) (key credit : String)
      → AreRedeems calls.parse_url server creds key credit
          (consume_sent fl calls client creds key credit)
  consume_sent-AreRedeems creds key credit = elim (Bool-cases (str_eq key "" || str_eq credit "")) [
    | inl t ↦ inr (ground (arith, t, eq_iff key "", eq_iff credit ""), rw t refl)
    | inr t ↦ inl (
      λ e. ground (arith, t, eq_iff key "", e),
      λ e. ground (arith, t, eq_iff credit "", e),
      consume_sent-IsOne creds key credit t,
    )
  ]

  module _ (env : Env W) where
    abbrev first : State → AccountFsm → List Request
    first =
        first_sent (reset_client fl calls client env)
          (get_sent fl calls client reset_credits_endpoint_path)
          (get_sent fl calls client usage_endpoint_path) (consume_sent fl calls client)

    abbrev later : State → AccountFsm → List Request
    later =
        then_sent (reset_client fl calls client env)
          (get_sent fl calls client reset_credits_endpoint_path)
          (get_sent fl calls client usage_endpoint_path) (consume_sent fl calls client)

    first-AreRequests :
        (s : State) (f : AccountFsm) → AreRequests calls.parse_url server s f (first s f)
    first-AreRequests idle f =
        (_, [], sym (append-nil _), get_sent-IsOne reset_credits_endpoint_path f.creds, inl refl)
    first-AreRequests armed f = refl
    first-AreRequests confirming f =
        (_, [], sym (append-nil _), get_sent-IsOne reset_credits_endpoint_path f.creds, inl refl)
    first-AreRequests resetting f = consume_sent-AreRedeems f.creds _ _
    first-AreRequests verifying f =
        (_, [], sym (append-nil _), get_sent-IsOne reset_credits_endpoint_path f.creds, inl refl)
    first-AreRequests done f = refl

    both_reads :
        (f : AccountFsm) → AreRequests calls.parse_url server idle f (first idle f ++ later idle f)
    both_reads f = (
      _,
      _,
      refl,
      get_sent-IsOne reset_credits_endpoint_path f.creds,
      inr (get_sent-IsOne usage_endpoint_path f.creds),
    )

    both-AreRequests :
        (s : State) (f : AccountFsm)
        → AreRequests calls.parse_url server s f (first s f ++ later s f)
    both-AreRequests idle f = both_reads f
    both-AreRequests armed f = refl
    both-AreRequests confirming f = both_reads f
    both-AreRequests resetting f = rw (append-nil _) (consume_sent-AreRedeems f.creds _ _)
    both-AreRequests verifying f = both_reads f
    both-AreRequests done f = refl

    -- A tick of a machine on the HTTP client sends, in IDLE, CONFIRMING and VERIFYING, a GET for the
    -- credits, and after it nothing more or a GET for the usage; in RESETTING, without asking for the
    -- credits again, one POST whose body has the pinned key as `redeem_request_id` and the pinned credit
    -- as `credit_id`, unless one of them is empty; and nothing in the other states. Each request goes to
    -- the backend's endpoint for it, under the client's base URL, and carries the account's token; a
    -- request whose URL does not parse is not sent.
    pub tick_requests :
        (m : Machine (Wire W))
        → (new : List Request) × ((step_locked (wired_client fl calls client env) m).1.world.sent
            ≡ m.world.sent ++ new)
          × AreRequests calls.parse_url (server_of client) m.fsm.state m.fsm new
    tick_requests m = elim (tick-Sent fl calls client env m) [
      | inl e ↦ (_, e, first-AreRequests m.fsm.state m.fsm)
      | inr e ↦ (_, e ∙ append_assoc m.world.sent _ _, both-AreRequests m.fsm.state m.fsm)
    ]
