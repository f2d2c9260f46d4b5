-- ===== src/Management/Safety.antt =====
-- What the routes may change.
use cpa_plugin_codex_auto_re.Prelude.{
  ◌≡◌, refl, ◌⊎◌, inl, inr, String, Bool, true, ◌&&◌, arith, str_eq, Bool-cases,
}
use cpa_plugin_codex_auto_re.Worker.State.{Host}
use cpa_plugin_codex_auto_re.Management.Paths.{is_resource_path, normalize_path}
use cpa_plugin_codex_auto_re.Management.Requests.{Body, Codec, Answers, Plugin}
use cpa_plugin_codex_auto_re.Management.Dispatch.{route_not_found, get_route, route, handle}

both : (a b : Bool) → (a && b) ≡ true → (a ≡ true) × (b ≡ true)
both a b h = ground arith

module _ {H : Type 0} (host : Host H) (codec : Codec) (answers : Answers) where
  -- A request to the unauthenticated resource path changes nothing, whatever its method and body; it is
  -- answered with the page or with 404.
  pub resource_path_read_only :
      (method raw_path body : String) (p : Plugin H)
      → is_resource_path raw_path ≡ true
      → let (r, after) = handle host codec answers method raw_path body p in
        (after ≡ p) × ((r ≡ (200, Body.page)) ⊎ (r ≡ route_not_found))
  unfolding handle route get_route
  resource_path_read_only method raw_path body p h =
      elim (Bool-cases (str_eq method "GET" && str_eq (normalize_path raw_path) "/status")) [
        | inl t ↦
            let (get, status) =
              both (str_eq method "GET") (str_eq (normalize_path raw_path) "/status") t in
            rw (h, t, get, status) (refl, inl refl)
        | inr t ↦ rw (h, t) (refl, inr refl)
      ]
