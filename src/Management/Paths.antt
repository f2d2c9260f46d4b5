-- ===== src/Management/Paths.antt =====
-- `isResourcePath` and `normalizePath` of management.go.
use Prim.Native.String.{len, slice, ◌++◌}
use text.Mathlib.Text.{starts_with}
use cpa_plugin_codex_auto_re.Prelude.{String, Bool, ◌||◌, List, [], ◌∷◌, if◌then◌else◌, str_eq}

abbrev pub resource_base_path : String
resource_base_path = "/v0/resource/plugins/codex-auto-reset"

unfoldable pub is_resource_path : String → Bool
is_resource_path path =
    str_eq path resource_base_path || starts_with path (resource_base_path ++ "/")

abbrev pub prefixes : List String
prefixes =
    "/v0/management/plugins/codex-auto-reset" ∷ "/v0/resource/plugins/codex-auto-reset"
    ∷ "/plugins/codex-auto-reset" ∷ "/codex-auto-reset" ∷ "codex-auto-reset" ∷ []

-- What follows the prefix, or the root.
abbrev pub stripped : String → String → String
stripped prefix path =
    let rest = slice path (len prefix) (len path) in
    if str_eq rest "" || str_eq rest "/" then "/" else rest

abbrev pub strip_first : List String → String → String
strip_first [] path = path
strip_first (p ∷ ps) path =
    let other = strip_first ps path in if starts_with path p then stripped p path else other

unfoldable pub normalize_path : String → String
normalize_path path = strip_first prefixes path
