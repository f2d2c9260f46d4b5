-- ===== src/OpenAi/Answers.antt =====
-- What the state machine makes of an answer to `Consume`: the client of openai_client.go and
-- `classifyConsume` of retry.go, one after the other.
use Prim.Native.String.{◌++◌ as join}
use cpa_plugin_codex_auto_re.Prelude.{
  ◌≡◌, refl, ◌∙◌, inl, inr, ℤ, pos, String, false, ◌||◌, ◌&&◌, if◌then◌else◌, str_eq, ltb_ℤ, leb_ℤ,
  Bool-cases, arith,
}
use cpa_plugin_codex_auto_re.Models.{CodexCredentials}
use cpa_plugin_codex_auto_re.Client.{GoError, is_client_error, ConsumeResponse, Result, ok, err}
use cpa_plugin_codex_auto_re.Retry.{RetryDecision, success, stop, retry, classify_consume}
use cpa_plugin_codex_auto_re.Quota.{Floats, parse_consume_response}
use cpa_plugin_codex_auto_re.OpenAi.{
  Answer, OpenAiClient, Calls, base_url, http_client, read_limited, do_request, consume,
  consume_request, consume_endpoint_path, response_of, checked, accepted, and_then, of_result,
  Method,
}

-- The errors of the client are all its own, never those of an answer's status.
abbrev pub IsOwnError : {A : Type 0} → Result A → Type 0
IsOwnError (err e) = is_client_error e ≡ false
IsOwnError (ok a) = Unit

abbrev pub by_response : Result ConsumeResponse → RetryDecision
by_response (err e) = retry
by_response (ok resp) =
    if str_eq resp.code "reset" || str_eq resp.code "already_redeemed" then success else stop

module _ (unmarshal : String → Result ConsumeResponse) where
  -- By the status of an answer, once its body is read.
  abbrev pub by_status : ℤ → Result String → RetryDecision
  by_status code (err e) = retry
  by_status code (ok body) =
      if leb_ℤ (pos 200) code && ltb_ℤ code (pos 300)
      then by_response (unmarshal body)
      else if leb_ℤ (pos 400) code && ltb_ℤ code (pos 500)
      then stop
      else retry

  abbrev pub by_answer : Result Answer → RetryDecision
  by_answer (err e) = retry
  by_answer (ok answer) = by_status answer.status_code (read_limited answer.body)

-- The decision on what `Consume` returns.
abbrev pub decision_on : Result ConsumeResponse → RetryDecision
decision_on r = classify_consume (response_of r).0 (response_of r).1

decision_plain : (s : String) → decision_on (err (GoError.plain s)) ≡ retry
unfolding classify_consume is_client_error
decision_plain s = refl

module _ {W : Type 0} (fl : Floats) (calls : Calls W fl.F) (client : OpenAiClient W) where
  abbrev pub answer_to : CodexCredentials → String → String → W → Result Answer
  answer_to creds key credit w =
      (http_client fl calls client (consume_request fl calls client creds key credit) w).0

  -- The body of an answer and what the decoder makes of it fail by errors of their own.
  abbrev pub AreOwnErrors : Result Answer → Type 0
  AreOwnErrors (err e) = is_client_error e ≡ false
  AreOwnErrors (ok answer) =
      IsOwnError (read_limited answer.body)
      × ((body : String) → IsOwnError (calls.unmarshal_consume body))

  -- `parseConsumeResponse` and the decision, on the outcome of `do`.
  abbrev decided : Result String → RetryDecision
  decided (err e) = decision_on (err e)
  decided (ok body) = decision_on (parse_consume_response calls.unmarshal_consume body)

  decision_parsed :
      (body : String)
      → IsOwnError (calls.unmarshal_consume body)
      → decision_on (parse_consume_response calls.unmarshal_consume body)
        ≡ by_response (calls.unmarshal_consume body)
  unfolding parse_consume_response classify_consume is_client_error
  decision_parsed body own = ground (arith, own)

  decision_checked :
      (path : String) (code : ℤ) (read : Result String)
      → IsOwnError read
      → ((body : String) → IsOwnError (calls.unmarshal_consume body))
      → decided (checked fl calls client Method.post path code read)
        ≡ by_status calls.unmarshal_consume code read
  unfolding classify_consume is_client_error
  decision_checked path code (err e) own owns = rw own refl
  decision_checked path code (ok body) own owns = ground (arith, decision_parsed body (owns body))

  decision_answered :
      (path : String) (r : Result Answer × W)
      → AreOwnErrors r.0
      → decided (and_then r (λ a. of_result (accepted fl calls client Method.post path a))).0
        ≡ by_answer calls.unmarshal_consume r.0
  unfolding classify_consume
  decision_answered path (err e, w) own = rw own refl
  decision_answered path (ok answer, w) own =
      decision_checked path answer.status_code (read_limited answer.body) own.0 own.1

  decided_after :
      (r : Result String × W)
      → decision_on
          (and_then r (λ body. of_result (parse_consume_response calls.unmarshal_consume body))).0
        ≡ decided r.0
  decided_after (err e, w) = refl
  decided_after (ok body, w) = refl

  -- With a key and a credit, and a URL that parses, an attempt counts as a success if the answer has a
  -- 2xx status and a body that decodes to the code reset or already_redeemed; it stops the cycle if the
  -- status is 4xx, or is 2xx and the body decodes to any other code; and it is tried again if the request
  -- fails, the body cannot be read or decoded, or the status is any other. Without a key or a credit it
  -- is tried again. The errors of the transport, of reading and of decoding are not status errors.
  pub consume_decision :
      (creds : CodexCredentials) (key credit path : String) (w : W)
      → calls.parse_url (join (base_url fl calls client) consume_endpoint_path) ≡ ok path
      → AreOwnErrors (answer_to creds key credit w)
      → decision_on (consume fl calls client creds key credit w).0 ≡ (
          if str_eq key "" || str_eq credit ""
          then retry
          else by_answer calls.unmarshal_consume (answer_to creds key credit w))
  unfolding consume do_request consume_request
  consume_decision creds key credit path w p own =
      elim (Bool-cases (str_eq key "" || str_eq credit "")) [
        | inl t ↦ rw t (decision_plain _)
        | inr t ↦
            let req = consume_request fl calls client creds key credit in
            rw (t, p)
              (decided_after (do_request fl calls client path req w)
                ∙ decision_answered path (http_client fl calls client req w) own)
      ]
