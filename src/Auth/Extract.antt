-- ===== src/Auth/Extract.antt =====
-- Where the credentials that `ExtractCodexCredentials` of auth.go returns come from.
use mathlib.Core.Logic.{◌≢◌}
use mathlib.Core.Path.{subst}
use cpa_plugin_codex_auto_re.Prelude.{
  ◌≡◌, refl, sym, ap, ◌∙◌, ◌⊎◌, inl, inr, String, false, Option, none, some, arith, str_eq, eq_iff,
  Bool-cases, Option-cases,
}
use cpa_plugin_codex_auto_re.Models.{CodexCredentials}
use cpa_plugin_codex_auto_re.Client.{ok, Result-cases}
use cpa_plugin_codex_auto_re.Json.{Json, Fields, member, as_object}
use cpa_plugin_codex_auto_re.Auth.{
  Decoders, or_blank, string_from_map, lookup_string_deep, decode_jwt_claims, flat_claim_key,
  auth_claim_key, if_filled, in_auth_claim, account_in_claims, extract_chat_gpt_account_id,
  account_of, extract_codex_credentials,
}
use cpa_plugin_codex_auto_re.Auth.Lookup.{
  or_then-some, Holds, lookup_string_deep-Holds, string_from_map-Holds, member-HoldsIn,
}

-- A text that is used if it was found and is not empty.
if_filled-some : (o : Option String) (s : String) → if_filled o ≡ some s → (o ≡ some s) × (s ≢ "")
if_filled-some none s h = absurd (cc)
if_filled-some (some t) s h = elim (Bool-cases (str_eq t "")) [
  | inl e ↦ absurd (cc (rw e at h))
  | inr e ↦ ground (arith, rw e at h, eq_iff t "", e)
]

or_blank-filled : (o : Option String) → str_eq (or_blank o) "" ≡ false → o ≡ some (or_blank o)
or_blank-filled none h = ground (arith, eq_iff "" "")
or_blank-filled (some s) h = refl

not-blank : (o : Option String) → str_eq (or_blank o) "" ≡ false → or_blank o ≢ ""
not-blank o h e = ground (arith, h, e, eq_iff (or_blank o) "")

module _ {F : Type 0} where
  -- The account that an identity token names.
  abbrev pub IsClaimed : Fields F → String → Type 0
  IsClaimed claims a =
      Holds flat_claim_key a (Json.obj claims) ⊎ Holds "chatgpt_account_id" a (Json.obj claims)

  as_object-some : (v : Json F) (m : Fields F) → as_object v ≡ some m → v ≡ Json.obj m
  as_object-some (Json.obj n) m h = cc
  as_object-some _ m h = absurd (cc)

  in_auth_claim-some :
      (claims : Fields F) (a : String)
      → in_auth_claim claims ≡ some a
      → IsClaimed claims a × (a ≢ "")
  in_auth_claim-some claims a h = elim (Option-cases (member auth_claim_key claims)) [
    | inl e ↦ absurd (cc (rw e at h))
    | inr (v, e) ↦ elim (Option-cases (as_object v)) [
      | inl n ↦ absurd (cc (rw (e, n) at h))
      | inr (claim, n) ↦
          let filled =
            if_filled-some (string_from_map claim "chatgpt_account_id") a (rw (e, n) at h) in
          let nested : Holds "chatgpt_account_id" a v =
            subst (Holds "chatgpt_account_id" a) (sym (as_object-some v claim n))
              (string_from_map-Holds claim "chatgpt_account_id" a filled.0) in
          (
            inr (
                Holds.under
                  (member-HoldsIn claims auth_claim_key "chatgpt_account_id" a v e nested)),
            filled.1,
          )
    ]
  ]

  account_in_claims-some :
      (claims : Fields F) (a : String)
      → account_in_claims claims ≡ some a
      → IsClaimed claims a × (a ≢ "")
  unfolding account_in_claims
  account_in_claims-some claims a h = elim (or_then-some _ _ a h) [
    | inl e ↦
        let f = if_filled-some (string_from_map claims flat_claim_key) a e in
        (inl (string_from_map-Holds claims flat_claim_key a f.0), f.1)
    | inr (_, h2) ↦ elim (or_then-some _ _ a h2) [
      | inl e ↦ in_auth_claim-some claims a e
      | inr (_, h3) ↦ elim (or_then-some _ _ a h3) [
        | inl e ↦
            let f = if_filled-some (lookup_string_deep (Json.obj claims) flat_claim_key) a e in
            (inl (lookup_string_deep-Holds (Json.obj claims) flat_claim_key a f.0), f.1)
        | inr (_, e) ↦
            let f =
              if_filled-some (lookup_string_deep (Json.obj claims) "chatgpt_account_id") a e in
            (inr (lookup_string_deep-Holds (Json.obj claims) "chatgpt_account_id" a f.0), f.1)
      ]
    ]
  ]

  module _ (d : Decoders F) where
    -- Where an account may come from: the document itself, or the identity token that it holds.
    abbrev pub IsAccountOf : Json F → String → Type 0
    IsAccountOf doc a =
        Holds "account_id" a doc
        ⊎ Holds "chatgpt_account_id" a doc
        ⊎ ((claims : Fields F) × (decode_jwt_claims d (or_blank (lookup_string_deep doc "id_token"))
              ≡ ok claims)
            × IsClaimed claims a)

    extract_chat_gpt_account_id-ok :
        (token a : String)
        → extract_chat_gpt_account_id d token ≡ ok a
        → (claims : Fields F) × (decode_jwt_claims d token ≡ ok claims)
          × IsClaimed claims a
          × (a ≢ "")
    unfolding extract_chat_gpt_account_id
    extract_chat_gpt_account_id-ok token a h = elim (Result-cases (decode_jwt_claims d token)) [
      | inr (x, e) ↦ absurd (cc (rw e at h))
      | inl (claims, e) ↦ elim (Option-cases (account_in_claims claims)) [
        | inl n ↦ absurd (cc (rw (e, n) at h))
        | inr (b, n) ↦
            let same : b ≡ a = cc (rw (e, n) at h) in
            let named = account_in_claims-some claims a (rw same at n) in
            (claims, e, named.0, named.1)
      ]
    ]

    account_of-ok :
        (doc : Json F) (a : String) → account_of d doc ≡ ok a → IsAccountOf doc a × (a ≢ "")
    unfolding account_of
    account_of-ok doc a h =
        let own = lookup_string_deep doc "account_id" in
        let other = lookup_string_deep doc "chatgpt_account_id" in
        elim (Bool-cases (str_eq (or_blank own) "")) [
          | inr e ↦
              let same : or_blank own ≡ a = cc (rw e at h) in
              (
                inl (
                    lookup_string_deep-Holds doc "account_id" a
                      (or_blank-filled own e ∙ ap some same)),
                rw (← same) (not-blank own e),
              )
          | inl e ↦ elim (Bool-cases (str_eq (or_blank other) "")) [
            | inr e2 ↦
                let same : or_blank other ≡ a = cc (rw (e, e2) at h) in
                (
                  inr (
                      inl (
                        lookup_string_deep-Holds doc "chatgpt_account_id" a
                          (or_blank-filled other e2 ∙ ap some same))),
                  rw (← same) (not-blank other e2),
                )
            | inl e2 ↦
                let (claims, c, n, filled) =
                  extract_chat_gpt_account_id-ok (or_blank (lookup_string_deep doc "id_token")) a
                    (rw (e, e2) at h) in
                (inr (inr (claims, c, n)), filled)
          ]
        ]

    -- Credentials that are returned were read from a document that the decoder made of the file: the
    -- access token stands in it under its name and is not empty, and the account is not empty and stands
    -- in the document, or in the claims of its identity token, under one of the names of an account.
    pub extract_codex_credentials-ok :
        (raw : String) (creds : CodexCredentials)
        → extract_codex_credentials d raw ≡ ok creds
        → (doc : Json F) × (d.unmarshal raw ≡ ok doc)
          × Holds "access_token" creds.access_token doc
          × (creds.access_token ≢ "")
          × IsAccountOf doc creds.chat_gpt_account_id
          × (creds.chat_gpt_account_id ≢ "")
    unfolding extract_codex_credentials
    extract_codex_credentials-ok raw creds h = elim (Result-cases (d.unmarshal raw)) [
      | inr (x, e) ↦ absurd (cc (rw e at h))
      | inl (doc, e) ↦
          let access = lookup_string_deep doc "access_token" in
          elim (Bool-cases (str_eq (or_blank access) "")) [
            | inl b ↦ absurd (cc (rw (e, b) at h))
            | inr b ↦ elim (Result-cases (account_of d doc)) [
              | inr (x, n) ↦ absurd (cc (rw (e, b, n) at h))
              | inl (a, n) ↦
                  let made = rw (e, b, n) at h in
                  let token : or_blank access ≡ creds.access_token = ground (arith, made) in
                  let account : a ≡ creds.chat_gpt_account_id = ground (arith, made) in
                  let of = account_of-ok doc a n in
                  (
                    doc,
                    e,
                    lookup_string_deep-Holds doc "access_token" creds.access_token
                        (or_blank-filled access b ∙ ap some token),
                    rw (← token) (not-blank access b),
                    rw (← account) of.0,
                    rw (← account) of.1,
                  )
            ]
          ]
    ]
