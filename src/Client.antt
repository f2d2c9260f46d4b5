-- ===== src/Client.antt =====
-- What openai_client.go and quota.go promise to their callers: the errors of a call, and the answer to a
-- `POST /consume`. The calls themselves go to the network and are an argument of the state machine.
use cpa_plugin_codex_auto_re.Prelude.{
  ◌≡◌, refl, ◌⊎◌, inl, inr, ℤ, pos, String, Bool, false, ◌&&◌, ltb_ℤ, leb_ℤ,
}

-- An `error`: a non-2xx answer, a text of its own, another error wrapped by `%w`, or the worker's own.
pub data GoError : Type 0 where
  http_status : (method path : String) → (code : ℤ) → (body : String) → GoError
  plain : String → GoError
  wrapped : String → GoError → GoError
  -- `account %q not found (is it enabled?)`.
  account_not_found : String → GoError

-- `errors.As` looks through the wrapping.
unfoldable pub is_client_error : GoError → Bool
is_client_error (http_status method path code body) = leb_ℤ (pos 400) code && ltb_ℤ code (pos 500)
is_client_error (plain s) = false
is_client_error (wrapped s e) = is_client_error e
is_client_error (account_not_found id) = false

pub record ConsumeResponse : Type 0 where
  pub code : String
  pub windows_reset : ℤ

-- A value or an error; where the source returns an error, the value beside it is not read.
pub data Result {ℓ} (A : Type ℓ) : Type ℓ where
  ok : A → Result A
  err : GoError → Result A

pub Result-cases {ℓ} :
    {A : Type ℓ} (r : Result A) → ((a : A) × (r ≡ ok a)) ⊎ ((e : GoError) × (r ≡ err e))
Result-cases (ok a) = inl (a, refl)
Result-cases (err e) = inr (e, refl)
