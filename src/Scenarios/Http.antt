-- ===== src/Scenarios/Http.antt =====
-- The theorems on the HTTP client, at work on a server with fixed answers.
use cpa_plugin_codex_auto_re.Prelude.{
  ℕ, ◌≡◌, refl, ◌||◌, pos, none, List, [], if◌then◌else◌, str_eq,
}
use cpa_plugin_codex_auto_re.Models.{resetting}
use cpa_plugin_codex_auto_re.Client.{GoError, ok, err, is_client_error}
use cpa_plugin_codex_auto_re.Retry.{retry}
use cpa_plugin_codex_auto_re.Fsm.Machine.{Env, Machine}
use cpa_plugin_codex_auto_re.Fsm.Tick.{step_locked}
use cpa_plugin_codex_auto_re.OpenAi.{
  Request, Answer, Transport, OpenAiClient, Calls, consume, read_limited, http_client,
}
use cpa_plugin_codex_auto_re.OpenAi.Requests.{AreRedeems}
use cpa_plugin_codex_auto_re.OpenAi.Wire.{Wire, wired_client}
use cpa_plugin_codex_auto_re.OpenAi.Ticks.{tick_requests}
use cpa_plugin_codex_auto_re.OpenAi.Answers.{decision_on, by_answer, answer_to, consume_decision}
use cpa_plugin_codex_auto_re.Scenarios.Sample.{
  account, attempt, creds, server, both, usage, accepted_answer,
}
use cpa_plugin_codex_auto_re.Scenarios.Answers.{Num, floats}

-- A gateway that is down.
abbrev bad_gateway : Answer
bad_gateway = record { status_code = pos 502; body = record { bytes = "<html>"; failure = none } }

abbrev transport : Transport ℕ
transport req w = (ok bad_gateway, w)

abbrev calls : Calls ℕ Num
calls = record {
  default_http = transport;
  parse_url = λ url. ok "/backend-api/wham";
  now = λ w. (pos w, w);
  parse_time = λ s. none;
  unmarshal_credits = λ raw. err (GoError.plain "no JSON");
  unmarshal_usage = λ raw. err (GoError.plain "no JSON");
  unmarshal_consume = λ raw. err (GoError.plain "no JSON");
}

abbrev client : OpenAiClient ℕ
client = record { base_url = ""; http = none }

abbrev machine : Machine (Wire ℕ)
machine = record { fsm = account resetting attempt "c1"; world = record { inner = 7; sent = [] } }

abbrev env : Env ℕ
env = server (ok both) (ok (usage (pos 40))) accepted_answer

tick_requests_example :
    (new : List Request) × ((step_locked
        (wired_client floats calls client env)
        machine).1.world.sent
      ≡ new)
    × AreRedeems calls.parse_url "https://chatgpt.com" creds attempt.redeem_request_id "c1" new
tick_requests_example = tick_requests floats calls client env machine

consume_decision_example : decision_on (consume floats calls client creds "key" "c1" 7).0 ≡ (
    if str_eq "key" "" || str_eq "c1" ""
    then retry
    else by_answer calls.unmarshal_consume (answer_to floats calls client creds "key" "c1" 7))
unfolding http_client read_limited is_client_error
consume_decision_example =
    consume_decision floats calls client creds "key" "c1" "/backend-api/wham" 7 refl
      (tt, λ body. refl)
