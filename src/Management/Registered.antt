-- ===== src/Management/Registered.antt =====
-- The routes that are registered with the host and those that are dispatched.
use cpa_plugin_codex_auto_re.Prelude.{
  ◌≡◌, refl, inl, inr, String, Bool, true, false, not, ◌&&◌, ◌||◌, ◌==◌, List, [], ◌∷◌, arith,
  str_eq, eq_iff, Bool-cases, if◌then◌else◌,
}
use cpa_plugin_codex_auto_re.Worker.State.{Host}
use cpa_plugin_codex_auto_re.Management.Paths.{is_resource_path, normalize_path}
use cpa_plugin_codex_auto_re.Management.Requests.{Body, Response, Codec, Answers, Plugin}
use cpa_plugin_codex_auto_re.Management.Accounts.{accounts_json, debug_auth_list}
use cpa_plugin_codex_auto_re.Management.Handlers.{
  put_settings, store_settings, check_all, check_one, reset_one, import_state, debug_usage,
  status_json, logs_json,
}
use cpa_plugin_codex_auto_re.Management.Dispatch.{
  route_not_found, get_route, post_route, route, handle,
}
use cpa_plugin_codex_auto_re.Management.Registration.{
  ManagementRoute, management_registration_response,
}

-- The answer of no route: 404 with its text. Other handlers answer 404 with the text of an error.
abbrev pub is_not_found : Response → Bool
is_not_found (code, Body.failure m) = code == 404 && str_eq m.format "route not found"
is_not_found (code, _) = false

-- Whether a route is registered that stands for the same method and path.
unfoldable pub is_registered_in : List ManagementRoute → String → String → Bool
is_registered_in [] method path = false
is_registered_in (r ∷ rs) method path =
    (str_eq method r.method && str_eq path (normalize_path r.path))
    || is_registered_in rs method path

abbrev pub is_registered : String → String → Bool
is_registered = is_registered_in management_registration_response.routes

-- Whether a part of the dispatch finds a handler.
record IsFound {A : Type 0} (view : A → Response) (answer : A) (found : Bool) : Type 0 where
  pub same : is_not_found (view answer) ≡ not found

-- One test of the dispatch, and the rest of it.
if-IsFound :
    {A : Type 0} (view : A → Response) (test : Bool) (answer : A) {other : A} {later : Bool}
    → is_not_found (view answer) ≡ false
    → IsFound view other later
    → IsFound view (if test then answer else other) (test || later)
if-IsFound view true answer h k = record { same = h }
if-IsFound view false answer h k = k

nothing-IsFound :
    {A : Type 0} (view : A → Response) (answer : A)
    → is_not_found (view answer) ≡ true
    → IsFound view answer false
nothing-IsFound view answer h = record { same = h }

module _ {H : Type 0} (host : Host H) (codec : Codec) (answers : Answers) where
  accounts_json-found :
      (enabled : List String) → is_not_found (accounts_json enabled answers.lister) ≡ false
  unfolding accounts_json
  accounts_json-found enabled = ground arith

  debug_auth_list-found : is_not_found (debug_auth_list answers.auths) ≡ false
  unfolding debug_auth_list
  debug_auth_list-found = ground arith

  debug_usage-found : (p : Plugin H) → is_not_found (debug_usage host codec answers p) ≡ false
  unfolding debug_usage
  debug_usage-found p = ground arith

  check_all-found : (p : Plugin H) → is_not_found (check_all host codec p).0 ≡ false
  unfolding check_all
  check_all-found p = ground arith

  check_one-found :
      (body : String) (p : Plugin H) → is_not_found (check_one host codec body p).0 ≡ false
  unfolding check_one
  check_one-found body p = ground arith

  reset_one-found :
      (body : String) (p : Plugin H) → is_not_found (reset_one host codec body p).0 ≡ false
  unfolding reset_one
  reset_one-found body p = ground arith

  import_state-found :
      (body : String) (p : Plugin H) → is_not_found (import_state host codec body p).0 ≡ false
  unfolding import_state
  import_state-found body p = ground arith

  put_settings-found :
      (body : String) (p : Plugin H) → is_not_found (put_settings host codec body p).0 ≡ false
  unfolding put_settings store_settings
  put_settings-found body p = ground arith

  get_route-IsFound :
      (path : String) (p : Plugin H)
      → IsFound (λ r. r) (get_route host codec answers false path p) (is_registered "GET" path)
  unfolding get_route is_registered_in normalize_path logs_json
  get_route-IsFound path p =
      let on = λ (literal : String). str_eq path literal in
      if-IsFound (λ r. r) (on "/status") (status_json host codec p) refl
        (if-IsFound (λ r. r) (on "/accounts")
          (accounts_json p.state.config.enabled_accounts answers.lister)
          (accounts_json-found p.state.config.enabled_accounts)
          (if-IsFound (λ r. r) (on "/debug/auth-list") (debug_auth_list answers.auths)
            debug_auth_list-found
            (if-IsFound (λ r. r) (on "/debug/usage") (debug_usage host codec answers p)
              (debug_usage-found p)
              (if-IsFound (λ r. r) (on "/logs") (logs_json host codec p) refl
                (if-IsFound (λ r. r) (on "/export") (200, Body.exported p.state) refl
                  (nothing-IsFound (λ r. r) route_not_found refl))))))

  post_route-IsFound :
      (path body : String) (p : Plugin H)
      → IsFound (λ r. r.0) (post_route host codec answers path body p) (is_registered "POST" path)
  unfolding post_route is_registered_in normalize_path
  post_route-IsFound path body p =
      let on = λ (literal : String). str_eq path literal in
      if-IsFound (λ r. r.0) (on "/check") (check_one host codec body p) (check_one-found body p)
        (if-IsFound (λ r. r.0) (on "/check/all") (check_all host codec p) (check_all-found p)
          (if-IsFound (λ r. r.0) (on "/reset") (reset_one host codec body p)
            (reset_one-found body p)
            (if-IsFound (λ r. r.0) (on "/import") (import_state host codec body p)
              (import_state-found body p) (nothing-IsFound (λ r. r.0) (route_not_found, p) refl))))

  put_route-IsFound :
      (path body : String) (p : Plugin H)
      → IsFound
          (λ r. r.0)
          (if str_eq path "/settings" then put_settings host codec body p else (route_not_found, p))
          (is_registered "PUT" path)
  unfolding is_registered_in normalize_path
  put_route-IsFound path body p =
      if-IsFound (λ r. r.0) (str_eq path "/settings") (put_settings host codec body p)
        (put_settings-found body p) (nothing-IsFound (λ r. r.0) (route_not_found, p) refl)

  other_method :
      (method path : String)
      → str_eq method "GET" ≡ false
      → str_eq method "POST" ≡ false
      → str_eq method "PUT" ≡ false
      → is_registered method path ≡ false
  unfolding is_registered_in
  other_method method path g o u = rw (g, o, u) refl

  route-found :
      (method path body : String) (p : Plugin H)
      → is_not_found (route host codec answers false method path body p).0
        ≡ not (is_registered method path)
  unfolding route
  route-found method path body p = elim (Bool-cases (str_eq method "GET")) [
    | inl g ↦ let e = (eq_iff method "GET").0 g in rw (g, e) (get_route-IsFound path p).same
    | inr g ↦ elim (Bool-cases (str_eq method "POST")) [
      | inl o ↦
          let e = (eq_iff method "POST").0 o in rw (g, o, e) (post_route-IsFound path body p).same
      | inr o ↦ elim (Bool-cases (str_eq method "PUT")) [
        | inl u ↦
            let e = (eq_iff method "PUT").0 u in
            rw (g, o, u, e) (put_route-IsFound path body p).same
        | inr u ↦ rw (g, o, u, other_method method path g o u) refl
      ]
    ]
  ]

  -- A request to a path that is not the resource path is answered by a handler exactly if the host was
  -- told of a route with its method and, once both are normalised, its path; otherwise it is answered
  -- with 404 and the text that there is no such route.
  pub handle-registered :
      (method raw_path body : String) (p : Plugin H)
      → is_resource_path raw_path ≡ false
      → is_not_found (handle host codec answers method raw_path body p).0
        ≡ not (is_registered method (normalize_path raw_path))
  unfolding handle
  handle-registered method raw_path body p h =
      rw h (route-found method (normalize_path raw_path) body p)
