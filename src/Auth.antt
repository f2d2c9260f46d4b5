-- ===== src/Auth.antt =====
-- auth.go: the credentials in an auth file, wherever it keeps them. `json.Unmarshal`, the base64 decoder
-- and `time.Parse` are arguments.
pub mod Lookup
pub mod Extract
use Prim.Native.String.{String}
use cpa_plugin_codex_auto_re.Prelude.{
  Bool, true, false, not, Option, none, some, List, [], ◌∷◌, if◌then◌else◌, str_eq, ltb_ℤ, ◌+ℤ◌,
  trim_space, split_at,
}
use cpa_plugin_codex_auto_re.Models.{Time, zero_time, is_zero, minutes, CodexCredentials}
use cpa_plugin_codex_auto_re.Client.{GoError, Result, ok, err}
use cpa_plugin_codex_auto_re.Json.{Json, Items, Fields, member, as_string, as_object}

-- `stringFromMap`.
abbrev pub string_from_map : {F : Type 0} → Fields F → String → Option String
string_from_map m key = elim (member key m) [ none ↦ none | some v ↦ as_string v ]

-- What was found, or what is found after it.
abbrev pub or_then : Option String → Option String → Option String
or_then (some s) later = some s
or_then none later = later

unfoldable mutual
  pub lookup_string_deep : {F : Type 0} → Json F → String → Option String
  lookup_string_deep (Json.obj m) key = or_then (string_from_map m key) (lookup_fields m key)
  lookup_string_deep (Json.arr xs) key = lookup_items xs key
  lookup_string_deep Json.null key = none
  lookup_string_deep (Json.flag b) key = none
  lookup_string_deep (Json.num x) key = none
  lookup_string_deep (Json.str s) key = none

  -- The loops over the children.
  pub lookup_fields : {F : Type 0} → Fields F → String → Option String
  lookup_fields Fields.end key = none
  lookup_fields (Fields.field k v m) key = or_then (lookup_string_deep v key) (lookup_fields m key)

  pub lookup_items : {F : Type 0} → Items F → String → Option String
  lookup_items Items.nil key = none
  lookup_items (Items.cons v xs) key = or_then (lookup_string_deep v key) (lookup_items xs key)

-- The value of a call that is used without its `ok`.
abbrev pub or_blank : Option String → String
or_blank none = ""
or_blank (some s) = s

abbrev pub auth_claim_key : String
auth_claim_key = "https://api.openai.com/auth"

abbrev pub flat_claim_key : String
flat_claim_key = "https://api.openai.com/auth.chatgpt_account_id"

-- `ok && v != ""`.
abbrev pub if_filled : Option String → Option String
if_filled none = none
if_filled (some s) = if not (str_eq s "") then some s else none

-- The account in the claim that is an object.
abbrev pub object_of : {F : Type 0} → Option (Json F) → Option (Fields F)
object_of none = none
object_of (some v) = as_object v

abbrev pub named_in : {F : Type 0} → Option (Fields F) → Option String
named_in none = none
named_in (some claim) = if_filled (string_from_map claim "chatgpt_account_id")

abbrev pub in_auth_claim : {F : Type 0} → Fields F → Option String
in_auth_claim claims = named_in (object_of (member auth_claim_key claims))

-- The four places, in their order.
unfoldable pub account_in_claims : {F : Type 0} → Fields F → Option String
account_in_claims claims = or_then (if_filled (string_from_map claims flat_claim_key)) (
    or_then (in_auth_claim claims) (
      or_then (if_filled (lookup_string_deep (Json.obj claims) flat_claim_key))
        (if_filled (lookup_string_deep (Json.obj claims) "chatgpt_account_id"))))

-- A layout of `time.Parse` that reads the text, in this order.
abbrev pub layouts : List String
layouts = "2006-01-02T15:04:05.999999999Z07:00" ∷ "2006-01-02T15:04:05Z07:00" ∷ []

-- What auth.go calls: `json.Unmarshal` into `any` and into a map, `base64.RawURLEncoding.DecodeString`,
-- and `time.Parse` by its layout.
pub record Decoders (F : Type 0) : Type 0 where
  pub unmarshal : String → Result (Json F)
  pub unmarshal_map : String → Result (Fields F)
  pub decode_base64 : String → Result String
  pub parse_time : String → String → Option Time

module _ {F : Type 0} (d : Decoders F) where
  parse_by : List String → String → Option Time
  parse_by [] raw = none
  parse_by (layout ∷ rest) raw =
      let later = parse_by rest raw in
      elim (d.parse_time layout raw) [ none ↦ later | some t ↦ some t ]

  unfoldable pub parse_auth_time : String → Option Time
  unfolding parse_by trim_space
  parse_auth_time raw =
      let trimmed = trim_space raw in if str_eq trimmed "" then none else parse_by layouts trimmed

  -- The first of the keys whose text is a time.
  unfoldable pub lookup_time_deep : Json F → List String → Option Time
  unfolding parse_auth_time
  lookup_time_deep v [] = none
  lookup_time_deep v (key ∷ keys) =
      let later = lookup_time_deep v keys in
      elim (lookup_string_deep v key) [
        | none ↦ later
        | some raw ↦ elim (parse_auth_time raw) [ none ↦ later | some t ↦ some t ]
      ]

  abbrev claims_in : Result String → Result (Fields F)
  claims_in (err e) = err e
  claims_in (ok payload) = d.unmarshal_map payload

  -- `base64` and JSON of the second part of a token.
  abbrev claims_of : List String → Result (Fields F)
  claims_of (header ∷ payload ∷ rest) = claims_in (d.decode_base64 payload)
  claims_of _ = err (GoError.plain "invalid id_token")

  unfoldable pub decode_jwt_claims : String → Result (Fields F)
  decode_jwt_claims token = claims_of (split_at b'.' token)

  abbrev pub or_missing : Option String → Result String
  or_missing (some v) = ok v
  or_missing none = err (GoError.plain "missing chatgpt_account_id")

  abbrev pub named_by : Result (Fields F) → Result String
  named_by (err e) = err (GoError.wrapped "missing chatgpt_account_id: %w" e)
  named_by (ok claims) = or_missing (account_in_claims claims)

  unfoldable pub extract_chat_gpt_account_id : String → Result String
  extract_chat_gpt_account_id id_token = named_by (decode_jwt_claims id_token)

  -- The account of the document, or that of the identity token.
  unfoldable pub account_of : Json F → Result String
  account_of doc =
      let own = or_blank (lookup_string_deep doc "account_id") in
      let other = or_blank (lookup_string_deep doc "chatgpt_account_id") in
      if not (str_eq own "")
      then ok own
      else if not (str_eq other "")
      then ok other
      else extract_chat_gpt_account_id (or_blank (lookup_string_deep doc "id_token"))

  abbrev pub credentials_of : Json F → String → Result String → Result CodexCredentials
  credentials_of doc access (err e) = err e
  credentials_of doc access (ok account) = ok (record {
    access_token = access;
    refresh_token = or_blank (lookup_string_deep doc "refresh_token");
    id_token = or_blank (lookup_string_deep doc "id_token");
    chat_gpt_account_id = account;
    expires_at =
        elim (lookup_time_deep doc ("expired" ∷ "expire" ∷ "expires_at" ∷ "expiresAt" ∷ [])) [
          | none ↦ zero_time
          | some t ↦ t
        ];
  })

  abbrev pub from_document : Json F → Result CodexCredentials
  from_document doc =
      let access = or_blank (lookup_string_deep doc "access_token") in
      if str_eq access ""
      then err (GoError.plain "missing access_token")
      else credentials_of doc access (account_of doc)

  abbrev pub from_decoded : Result (Json F) → Result CodexCredentials
  from_decoded (err e) = err e
  from_decoded (ok doc) = from_document doc

  unfoldable pub extract_codex_credentials : String → Result CodexCredentials
  extract_codex_credentials raw = from_decoded (d.unmarshal raw)

-- `accessTokenExpired`; `clock` is what `time.Now` shows where the caller has no time.
unfoldable pub access_token_expired : Time → CodexCredentials → Time → Bool
access_token_expired clock creds now =
    if is_zero creds.expires_at
    then false
    else (let at = if is_zero now then clock else now in
        not (ltb_ℤ (at +ℤ minutes 2) creds.expires_at))
