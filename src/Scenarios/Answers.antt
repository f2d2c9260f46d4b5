-- ===== src/Scenarios/Answers.antt =====
-- The theorems on the parsers, at work on a usage answer and an auth file.
use cpa_plugin_codex_auto_re.Prelude.{
  ◌≡◌, ◌≢◌, refl, ◌⊎◌, inl, ℤ, pos, negsuc, ◌≤ℤ◌, String, Bool, true, false, none, some, [], arith,
  IsInt64,
}
use cpa_plugin_codex_auto_re.Models.{zero_time, hours, Snapshot, CodexCredentials}
use cpa_plugin_codex_auto_re.Client.{GoError, ok, err}
use cpa_plugin_codex_auto_re.Json.{Json, Fields}
use cpa_plugin_codex_auto_re.Quota.{Floats, IsGo}
use cpa_plugin_codex_auto_re.Quota.Usage.{parse_usage_response}
use cpa_plugin_codex_auto_re.Quota.Reading.{credits_count}
use cpa_plugin_codex_auto_re.Quota.Weekly.{InPercent, used_share, left_of, parse_usage_response_lem}
use cpa_plugin_codex_auto_re.Auth.{
  Decoders, lookup_string_deep, lookup_time_deep, account_of, extract_codex_credentials,
}
use cpa_plugin_codex_auto_re.Auth.Lookup.{Holds, lookup_string_deep_lem}
use cpa_plugin_codex_auto_re.Auth.Extract.{IsAccountOf, extract_codex_credentials-ok}

-- A few whole numbers as floats, -1, 0, 9 and the seconds of a week: adding a half and cutting it off
-- changes nothing.
pub data Num : Type 0 where
  below zero_share some_share week : Num

abbrev num_geq_zero : Num → Bool
num_geq_zero Num.below = false
num_geq_zero _ = true

abbrev num_to_int : Num → ℤ
num_to_int Num.below = negsuc 0
num_to_int Num.zero_share = pos 0
num_to_int Num.some_share = pos 9
num_to_int Num.week = pos 604800

abbrev pub floats : Floats
floats = record {
  F = Num;
  minus_one = Num.below;
  geq_zero = num_geq_zero;
  add_half = λ x. x;
  to_int = num_to_int;
}

num_fits : (x : Num) → IsInt64 (num_to_int x)
num_fits Num.below = omega arith
num_fits Num.zero_share = omega arith
num_fits Num.some_share = omega arith
num_fits Num.week = omega arith

num_rounds :
    (x : Num)
    → num_geq_zero x ≡ true
    → (pos 0 ≤ℤ num_to_int x) ⊎ (num_to_int x ≡ negsuc 9223372036854775807)
num_rounds Num.below h = absurd (cc)
num_rounds Num.zero_share h = inl (omega arith)
num_rounds Num.some_share h = inl (omega arith)
num_rounds Num.week h = inl (omega arith)

pub floats-IsGo : IsGo floats
floats-IsGo = record { below = refl; fits = num_fits; rounds = num_rounds }

abbrev window : Fields Num
window =
    Fields.field "limit_window_seconds" (Json.num Num.week)
      (Fields.field "used_percent" (Json.num Num.some_share) Fields.end)

abbrev counted : Fields Num
counted = Fields.field "available_count" (Json.num Num.some_share) Fields.end

abbrev usage_document : Fields Num
usage_document = Fields.field "rate_limit_reset_credits" (Json.obj counted) (
    Fields.field "rate_limit"
      (Json.obj (Fields.field "primary_window" (Json.obj window) Fields.end)) Fields.end)

parse_usage_response_lem_example :
    (parse_usage_response floats (λ raw. ok usage_document) "{}" (hours 5)
      ≡ ok (record {
        available_count = credits_count floats usage_document;
        credits = [];
        weekly_pct = left_of floats (used_share floats usage_document);
        captured_at = hours 5;
      }))
    × InPercent (left_of floats (used_share floats usage_document))
parse_usage_response_lem_example =
    parse_usage_response_lem floats floats-IsGo (λ raw. ok usage_document) "{}" (hours 5)
      usage_document refl

-- 9 credits, and 9 percent used.
nine_counted : credits_count floats usage_document ≡ pos 9
nine_counted = refl

nine_used : used_share floats usage_document ≡ some Num.some_share
nine_used = refl

abbrev empty_usage : Snapshot
empty_usage = record {
  available_count = pos 0;
  credits = [];
  weekly_pct = pos 100;
  captured_at = hours 5;
}

-- An auth file that keeps its tokens in an object of their own.
abbrev tokens : Fields Num
tokens =
    Fields.field "access_token" (Json.str "secret")
      (Fields.field "account_id" (Json.str "acc") Fields.end)

abbrev document : Json Num
document =
    Json.obj
      (Fields.field "type" (Json.str "codex") (Fields.field "tokens" (Json.obj tokens) Fields.end))

lookup_string_deep_lem_example :
    ((s : String) × (lookup_string_deep document "access_token" ≡ some s)
      × Holds "access_token" s document)
    ⊎ ((lookup_string_deep document "access_token" ≡ none)
        × ((s : String) → ¬ Holds "access_token" s document))
lookup_string_deep_lem_example = lookup_string_deep_lem document "access_token"

abbrev pub decoders : Decoders Num
decoders = record {
  unmarshal = λ raw. ok document;
  unmarshal_map = λ raw. err (GoError.plain "no claims");
  decode_base64 = λ part. err (GoError.plain "no base64");
  parse_time = λ layout raw. none;
}

abbrev pub secret : CodexCredentials
secret = record {
  access_token = "secret";
  refresh_token = "";
  id_token = "";
  chat_gpt_account_id = "acc";
  expires_at = zero_time;
}

pub extracted_secret : extract_codex_credentials decoders "{}" ≡ ok secret
unfolding extract_codex_credentials account_of lookup_string_deep lookup_time_deep
extracted_secret = refl

extract_codex_credentials-ok_example :
    (doc : Json Num) × (decoders.unmarshal "{}" ≡ ok doc)
    × Holds "access_token" secret.access_token doc
    × (secret.access_token ≢ "")
    × IsAccountOf decoders doc secret.chat_gpt_account_id
    × (secret.chat_gpt_account_id ≢ "")
extract_codex_credentials-ok_example =
    extract_codex_credentials-ok decoders "{}" secret extracted_secret
