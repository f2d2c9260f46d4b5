-- ===== src/Json.antt =====
-- The values that `json.Unmarshal` makes of a text when it decodes into `any`: quota.go and auth.go read
-- them. `F` is the type of a `float64`. An object is a `map[string]any`, its fields in the order in which
-- `range` happens to visit them; a name stands in it once.
use cpa_plugin_codex_auto_re.Prelude.{String, Bool, Option, none, some, if◌then◌else◌, str_eq}

mutual
  pub data Json (F : Type 0) : Type 0 where
    null : Json F
    flag : Bool → Json F
    num : F → Json F
    str : String → Json F
    arr : Items F → Json F
    obj : Fields F → Json F

  pub data Items (F : Type 0) : Type 0 where
    nil : Items F
    cons : Json F → Items F → Items F

  pub data Fields (F : Type 0) : Type 0 where
    end : Fields F
    field : String → Json F → Fields F → Fields F

-- `v, ok := m[key]`.
abbrev pub member : {F : Type 0} → String → Fields F → Option (Json F)
member key end = none
member key (field k v m) = let rest = member key m in if str_eq k key then some v else rest

-- `v.(string)` and `v.(map[string]any)`.
abbrev pub as_string : {F : Type 0} → Json F → Option String
as_string (str s) = some s
as_string _ = none

abbrev pub as_object : {F : Type 0} → Json F → Option (Fields F)
as_object (obj m) = some m
as_object _ = none
