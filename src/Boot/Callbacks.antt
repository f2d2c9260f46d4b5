-- ===== src/Boot/Callbacks.antt =====
-- The calls from the plugin to its host in main.go: the envelopes, `callHostCallbackABI`, and the calls
-- that list auth files, read one, and end a cooldown. The JSON coders and the host's side of a call are
-- arguments; memory for a call is there, and the copies to and from C are left out.
use Prim.Native.String.{◌++◌}
use cpa_plugin_codex_auto_re.Prelude.{
  ℕ, ◌≡◌, refl, ap, ◌∙◌, inl, inr, ℤ, pos, eqb_ℤ, eqb_ℤ_iff, String, Bool, true, false, not, Option,
  none, some, List, if◌then◌else◌, str_eq, Bool-cases, Option-cases,
}
use cpa_plugin_codex_auto_re.Client.{GoError, Result, ok, err, Result-cases}
use cpa_plugin_codex_auto_re.Management.Requests.{AuthEntry}

pub record EnvelopeError : Type 0 where
  pub code : String
  pub message : String

-- `envelope`; the empty text is a result that is left out.
pub record Envelope : Type 0 where
  pub ok : Bool
  pub result : String
  pub error : Option EnvelopeError

abbrev pub ok_envelope : String → Envelope
ok_envelope result = record { ok = true; result = result; error = none }

abbrev pub error_envelope : String → String → Envelope
error_envelope code message = record {
  ok = false;
  result = "";
  error = some (record { code = code; message = message });
}

-- A host answers a method and a payload with a return code and the bytes of a response.
abbrev pub HostApi : Type 0
HostApi = String → String → ℤ × String

module _ (unmarshal : String → Result Envelope) where
  -- The end of a call, on a decoded response.
  abbrev pub opened : String → ℤ → Envelope → Result String
  opened method code env =
      if not env.ok
      then (elim (env.error) [
        | some e ↦ err (GoError.plain (e.code ++ ": " ++ e.message))
        | none ↦ err (GoError.plain ("host callback " ++ method ++ " failed"))
      ])
      else if not (eqb_ℤ code (pos 0))
      then err (GoError.plain "host callback %s returned code=%d")
      else ok env.result

  abbrev pub decoded : String → ℤ → Result Envelope → Result String
  decoded method code (err e) = err (GoError.wrapped "decode host callback envelope %s: %w" e)
  decoded method code (ok env) = opened method code env

  abbrev pub answered : String → ℤ × String → Result String
  answered method (code, raw) =
      if str_eq raw ""
      then err (GoError.plain "host callback %s returned no response, code=%d")
      else decoded method code (unmarshal raw)

  -- `payload` is the outcome of encoding the payload.
  abbrev pub sent_to : HostApi → String → Result String → Result String
  sent_to host method (err e) = err (GoError.wrapped "marshal host callback payload %s: %w" e)
  sent_to host method (ok payload) = answered method (host method payload)

  unfoldable pub call_host_callback : Option HostApi → String → Result String → Result String
  call_host_callback none method payload =
      err (GoError.plain ("host callback " ++ method ++ " unavailable"))
  call_host_callback (some host) method payload = sent_to host method payload

  opened-ok :
      (method : String) (code : ℤ) (env : Envelope) (result : String)
      → opened method code env ≡ ok result
      → (env.ok ≡ true) × (code ≡ pos 0) × (env.result ≡ result)
  opened-ok method code env result h = elim (Bool-cases env.ok) [
    | inr n ↦ elim (Option-cases env.error) [
      | inl e ↦ absurd (cc (rw (n, e) at h))
      | inr (x, e) ↦ absurd (cc (rw (n, e) at h))
    ]
    | inl t ↦ elim (Bool-cases (eqb_ℤ code (pos 0))) [
      | inr n ↦ absurd (cc (rw (t, n) at h))
      | inl z ↦
          let same : env.result ≡ result = cc (rw (t, z) at h) in
          (t, (eqb_ℤ_iff code (pos 0)).0 z, same)
    ]
  ]

  answered-ok :
      (method : String) (r : ℤ × String) (result : String)
      → answered method r ≡ ok result
      → (env : Envelope) × (unmarshal r.1 ≡ ok env)
        × (r.0 ≡ pos 0)
        × (env.ok ≡ true)
        × (env.result ≡ result)
  answered-ok method (code, raw) result h = elim (Bool-cases (str_eq raw "")) [
    | inl n ↦ absurd (cc (rw n at h))
    | inr n ↦ elim (Result-cases (unmarshal raw)) [
      | inr (x, e) ↦ absurd (cc (rw (n, e) at h))
      | inl (env, e) ↦
          let (good, zero, same) = opened-ok method code env result (rw (n, e) at h) in
          (env, e, zero, good, same)
    ]
  ]

  -- A call gives a result only if the host is there, the payload was encoded, and the host returned 0 and
  -- a response that decodes to an envelope that is marked as successful; the result is the envelope's.
  pub call_host_callback-ok :
      (host : Option HostApi) (method : String) (payload : Result String) (result : String)
      → call_host_callback host method payload ≡ ok result
      → (api : HostApi) × (sent raw : String) × (env : Envelope) × (host ≡ some api)
        × (payload ≡ ok sent)
        × (api method sent ≡ (pos 0, raw))
        × (unmarshal raw ≡ ok env)
        × (env.ok ≡ true)
        × (env.result ≡ result)
  unfolding call_host_callback
  call_host_callback-ok none method payload result h = absurd (cc)
  call_host_callback-ok (some api) method (err e) result h = absurd (cc)
  call_host_callback-ok (some api) method (ok sent) result h =
      let (env, decodes, code, good, same) = answered-ok method (api method sent) result h in
      (
        api,
        sent,
        (api method sent).1,
        env,
        refl,
        refl,
        (λ i. (code i, (api method sent).1)),
        decodes,
        good,
        same,
      )

-- What the calls use: the names of the methods in package pluginabi, the encoders of the payloads and
-- the decoders of the results.
pub record HostCalls : Type 0 where
  pub envelope : String → Result Envelope
  pub auth_list : String
  pub list_payload : Result String
  pub list_result : String → Result (List AuthEntry)
  pub auth_get : String
  pub get_payload : String → Result String
  pub get_result : String → Result String
  pub reset_cooldown : String
  pub cooldown_payload : String → Result String
  -- How many models the answer names.
  pub cooldown_result : String → Result ℕ

abbrev pub decoded_as : {A : Type 0} → String → Result A → Result A
decoded_as what (ok a) = ok a
decoded_as what (err e) = err (GoError.wrapped what e)

abbrev pub result_of : {A : Type 0} → String → (String → Result A) → Result String → Result A
result_of what decode (err e) = err e
result_of what decode (ok raw) = decoded_as what (decode raw)

module _ (calls : HostCalls) (host : Option HostApi) where
  unfoldable pub list_auths_via_host : Result (List AuthEntry)
  list_auths_via_host =
      result_of "decode host.auth.list result: %w" calls.list_result
        (call_host_callback calls.envelope host calls.auth_list calls.list_payload)

  unfoldable pub get_auth_json_via_host : String → Result String
  get_auth_json_via_host auth_index =
      result_of "decode host.auth.get result: %w" calls.get_result
        (call_host_callback calls.envelope host calls.auth_get (calls.get_payload auth_index))

  unfoldable pub reset_routing_cooldown : String → Result ℕ
  reset_routing_cooldown auth_index =
      result_of "decode host.routing.reset_cooldown result: %w" calls.cooldown_result (
        call_host_callback calls.envelope host calls.reset_cooldown
          (calls.cooldown_payload auth_index))

  -- A result of the second call was decoded from a successful response of the host.
  pub get_auth_json_via_host-ok :
      (auth_index json : String)
      → get_auth_json_via_host auth_index ≡ ok json
      → (result : String) × (call_host_callback calls.envelope host calls.auth_get
            (calls.get_payload auth_index)
          ≡ ok result)
        × (calls.get_result result ≡ ok json)
  unfolding get_auth_json_via_host
  get_auth_json_via_host-ok auth_index json h =
      let call =
        call_host_callback calls.envelope host calls.auth_get (calls.get_payload auth_index) in
      elim (Result-cases call) [
        | inr (x, e) ↦ absurd (cc (rw e at h))
        | inl (result, e) ↦ elim (Result-cases (calls.get_result result)) [
          | inr (x, n) ↦ absurd (cc (rw (e, n) at h))
          | inl (got, n) ↦
              let same : got ≡ json = cc (rw (e, n) at h) in (result, e, n ∙ ap ok same)
        ]
      ]
