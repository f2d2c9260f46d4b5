-- ===== src/Scenarios/Start.antt =====
-- The theorems on the start of the plugin, at work on one auth file and one saved state.
use Prim.Native.Char.{code}
use Prim.Native.String.{◌++◌}
use text.Mathlib.TextLemmas.{cons-append, nil-append}
use cpa_plugin_codex_auto_re.Prelude.{
  Option, some, ℕ, zero, suc, ◌≡◌, ◌≢◌, refl, ap, ◌∙◌, pos, negsuc, String, true, false, List, [],
  ◌∷◌, if◌then◌else◌, ◌==◌, str_eq, select,
}
use cpa_plugin_codex_auto_re.Models.{Duration}
use cpa_plugin_codex_auto_re.Client.{GoError, Result, ok, err}
use cpa_plugin_codex_auto_re.Config.Json.{has_suffix, marshal_json, unmarshal_json}
use cpa_plugin_codex_auto_re.Config.Json.RoundTrip.{ReadsBack, marshal_json-unmarshal_json}
use cpa_plugin_codex_auto_re.Auth.{extract_codex_credentials, lookup_string_deep, account_of}
use cpa_plugin_codex_auto_re.Management.Requests.{AuthEntry}
use cpa_plugin_codex_auto_re.Management.Accounts.{is_codex}
use cpa_plugin_codex_auto_re.Boot.Callbacks.{
  HostApi, HostCalls, ok_envelope, list_auths_via_host, get_auth_json_via_host, call_host_callback,
}
use cpa_plugin_codex_auto_re.Boot.Loading.{IsGiven, loaded_creds-IsGiven}
use cpa_plugin_codex_auto_re.Boot.Creds.{is_named, load_from, host_creds_loader}
use cpa_plugin_codex_auto_re.Scenarios.Answers.{decoders, secret, extracted_secret}
use cpa_plugin_codex_auto_re.Scenarios.Sample.{config}

-- Durations as strokes behind a sign; a reader counts the strokes and passes over all else.
strokes : ℕ → String
strokes zero = String.[]
strokes (suc n) = String.◌∷◌ "i" (strokes n)

show : Duration → String
show (pos n) = String.◌∷◌ "+" (strokes n)
show (negsuc n) = String.◌∷◌ "-" (strokes n)

count : String → ℕ
count String.[] = 0
count (String.◌∷◌ c s) = let rest = count s in if code c == b'i' then suc rest else rest

parse : String → Result Duration
parse String.[] = err (GoError.plain "time: invalid duration")
parse (String.◌∷◌ c s) = ok (if code c == b'-' then negsuc (count s) else pos (count s))

count-strokes : (n : ℕ) → count (strokes n) ≡ n
unfolding count strokes
count-strokes zero = refl
count-strokes (suc n) = ap suc (count-strokes n)

-- A tail without strokes.
count-append : (s t : String) → count t ≡ 0 → count (s ++ t) ≡ count s
unfolding count
count-append String.[] t h = ap count (nil-append t) ∙ h
count-append (String.◌∷◌ c s) t h = rw (cons-append c s t, count-append s t h) refl

parse-append :
    (unit t : String)
    → str_eq "" unit ≡ false
    → count t ≡ 0
    → (s : String) → has_suffix unit s ≡ true
    → parse (s ++ t) ≡ parse s
unfolding parse
parse-append unit t n h String.[] e = absurd (cc (rw n at e))
parse-append unit t n h (String.◌∷◌ c s) e = rw (cons-append c s t, count-append s t h) refl

parse-show : (d : Duration) → parse (show d) ≡ ok d
unfolding show parse count
parse-show (pos n) = ap (λ k. ok (pos k)) (count-strokes n)
parse-show (negsuc n) = ap (λ k. ok (negsuc k)) (count-strokes n)

show-ReadsBack : ReadsBack show parse
unfolding show parse count
show-ReadsBack = record {
  reads = parse-show;
  not_blank = λ d h. absurd (cc);
  no_seconds = parse-append "m" "0s" refl refl;
  no_minutes = parse-append "h" "0m" refl refl;
}

marshal_json-unmarshal_json_example :
    unmarshal_json show parse (marshal_json show parse config)
    ≡ ok (record config { state_dir = "" })
marshal_json-unmarshal_json_example = marshal_json-unmarshal_json show parse show-ReadsBack config

-- The auth files of the host: the second is the account's.
abbrev pub other_file : AuthEntry
other_file = record {
  id = "other.json";
  auth_index = "b";
  path = "";
  provider = "claude";
  type_name = "";
  name = "";
  email = "";
  account = "";
  disabled = false;
  unavailable = false;
}

abbrev pub codex_file : AuthEntry
codex_file = record other_file {
  id = "codex-a.json";
  auth_index = "a";
  path = "/auth/codex-a.json";
  provider = "Codex";
}

abbrev auth_files : List AuthEntry
auth_files = other_file ∷ codex_file ∷ []

-- What the host answers.
abbrev pub listed : Result (List AuthEntry)
listed = ok auth_files

-- A host that answers every call with one envelope.
abbrev api : HostApi
api method payload = (pos 0, "{ok}")

abbrev given : Option HostApi
given = some api

abbrev host_calls : HostCalls
host_calls = record {
  envelope = λ raw. ok (ok_envelope "{}");
  auth_list = "host.auth.list";
  list_payload = ok "{}";
  list_result = λ raw. ok auth_files;
  auth_get = "host.auth.get";
  get_payload = λ index. ok index;
  get_result = λ raw. ok "{}";
  reset_cooldown = "host.routing.reset_cooldown";
  cooldown_payload = λ index. ok index;
  cooldown_result = λ raw. ok 1;
}

loaded_creds-IsGiven_example :
    (files : List AuthEntry) × (a : AuthEntry) × (others : List AuthEntry) × (json : String)
    × (list_auths_via_host host_calls given ≡ ok files)
    × (select (is_named "a") files ≡ a ∷ others)
    × (is_codex a ≡ true)
    × IsGiven decoders host_calls given a json
    × (extract_codex_credentials decoders json ≡ ok secret)
    × (secret.access_token ≢ "")
    × (secret.chat_gpt_account_id ≢ "")
unfolding host_creds_loader load_from extract_codex_credentials lookup_string_deep account_of
    list_auths_via_host get_auth_json_via_host call_host_callback
loaded_creds-IsGiven_example =
    loaded_creds-IsGiven decoders host_calls given "a" secret extracted_secret
