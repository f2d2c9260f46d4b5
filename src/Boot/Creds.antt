-- ===== src/Boot/Creds.antt =====
-- `hostCredsLoader` of main.go: the credentials of an account, from the auth file of the host.
-- What the host answers is an argument: its list of auth files, and the JSON of one of them.
use cpa_plugin_codex_auto_re.Prelude.{
  ◌≡◌, ◌≢◌, refl, ap, ◌∙◌, select, String, Bool, true, not, ◌&&◌, List, [], ◌∷◌, if◌then◌else◌,
  str_eq, Bool-cases, inl, inr,
}
use cpa_plugin_codex_auto_re.Models.{CodexCredentials}
use cpa_plugin_codex_auto_re.Client.{GoError, Result, ok, err, Result-cases}
use cpa_plugin_codex_auto_re.Auth.{Decoders, extract_codex_credentials}
use cpa_plugin_codex_auto_re.Auth.Extract.{extract_codex_credentials-ok}
use cpa_plugin_codex_auto_re.Management.Requests.{AuthEntry}
use cpa_plugin_codex_auto_re.Management.Accounts.{is_codex}

-- `a.ID == authID || a.AuthIndex == authID`, as the loop's `continue` has it.
abbrev pub is_named : String → AuthEntry → Bool
is_named id a = not (not (str_eq a.id id) && not (str_eq a.auth_index id))

module _ {F : Type 0} (d : Decoders F) (get_auth : String → Result String) where
  abbrev pub extracted : Result CodexCredentials → Result CodexCredentials
  extracted (err e) = err (GoError.wrapped "extract credentials %s: %w" e)
  extracted (ok creds) = ok creds

  abbrev pub from_file : Result String → Result CodexCredentials
  from_file (err e) = err (GoError.wrapped "get auth %s: %w" e)
  from_file (ok raw) = extracted (extract_codex_credentials d raw)

  -- The body of the loop for the entry that has the name.
  abbrev pub from_entry : AuthEntry → Result CodexCredentials
  from_entry a =
      if is_codex a
      then from_file (get_auth a.auth_index)
      else err (GoError.plain "auth %s is not a codex credential (provider=%q type=%q)")

  unfoldable pub load_from : String → List AuthEntry → Result CodexCredentials
  load_from id [] = err (GoError.plain "auth %q not found")
  load_from id (a ∷ rest) =
      let later = load_from id rest in if is_named id a then from_entry a else later

  unfoldable pub host_creds_loader : Result (List AuthEntry) → String → Result CodexCredentials
  host_creds_loader (err e) id = err (GoError.wrapped "list auths: %w" e)
  host_creds_loader (ok auths) id = load_from id auths

  from_entry-ok :
      (a : AuthEntry) (creds : CodexCredentials)
      → from_entry a ≡ ok creds
      → (is_codex a ≡ true)
        × ((raw : String) × (get_auth a.auth_index ≡ ok raw)
            × (extract_codex_credentials d raw ≡ ok creds))
  from_entry-ok a creds h = elim (Bool-cases (is_codex a)) [
    | inr n ↦ absurd (cc (rw n at h))
    | inl c ↦ elim (Result-cases (get_auth a.auth_index)) [
      | inr (x, e) ↦ absurd (cc (rw (c, e) at h))
      | inl (raw, e) ↦ elim (Result-cases (extract_codex_credentials d raw)) [
        | inr (x, n) ↦ absurd (cc (rw (c, e, n) at h))
        | inl (got, n) ↦
            let same : got ≡ creds = cc (rw (c, e, n) at h) in (c, (raw, e, n ∙ ap ok same))
      ]
    ]
  ]

  load_from-first :
      (id : String) (auths : List AuthEntry) (creds : CodexCredentials)
      → load_from id auths ≡ ok creds
      → (a : AuthEntry) × (others : List AuthEntry) × (select (is_named id) auths ≡ a ∷ others)
        × (from_entry a ≡ ok creds)
  unfolding load_from
  load_from-first id [] creds h = absurd (cc)
  load_from-first id (a ∷ rest) creds h = elim (Bool-cases (is_named id a)) [
    | inl n ↦ (a, select (is_named id) rest, rw n refl, rw n at h)
    | inr n ↦
        let (b, others, e, f) = load_from-first id rest creds (rw n at h) in (b, others, rw n e, f)
  ]

  -- Credentials that are loaded for an account come from the first auth file of the host that has the
  -- account's name as its identifier or its index: it is a Codex file, the host gave its JSON, and the
  -- credentials were extracted from that; their access token and their account are not empty. A later
  -- file of that name is never used.
  pub host_creds_loader-ok :
      (auths : Result (List AuthEntry)) (id : String) (creds : CodexCredentials)
      → host_creds_loader auths id ≡ ok creds
      → (files : List AuthEntry) × (a : AuthEntry) × (others : List AuthEntry) × (raw : String)
        × (auths ≡ ok files)
        × (select (is_named id) files ≡ a ∷ others)
        × (is_codex a ≡ true)
        × (get_auth a.auth_index ≡ ok raw)
        × (extract_codex_credentials d raw ≡ ok creds)
        × (creds.access_token ≢ "")
        × (creds.chat_gpt_account_id ≢ "")
  unfolding host_creds_loader
  host_creds_loader-ok (err e) id creds h = absurd (cc)
  host_creds_loader-ok (ok files) id creds h =
      let (a, others, first, from) = load_from-first id files creds h in
      let (codex, (raw, got, made)) = from_entry-ok a creds from in
      let parts = extract_codex_credentials-ok d raw creds made in
      (files, a, others, raw, refl, first, codex, got, made, parts.3, parts.5)
