-- ===== src/Auth/Lookup.antt =====
-- What `lookupStringDeep` of auth.go finds, against a description of the places where it may look.
use mathlib.Core.Logic.{◌≢◌}
use mathlib.Core.Path.{subst}
use cpa_plugin_codex_auto_re.Prelude.{
  ◌≡◌, refl, sym, ap, str_eq, Bool-cases, ◌⊎◌, inl, inr, String, Option, none, some, arith,
  Option-cases,
}
use cpa_plugin_codex_auto_re.Json.{Json, Items, Fields, member, as_string}
use cpa_plugin_codex_auto_re.Auth.{
  string_from_map, or_then, lookup_string_deep, lookup_fields, lookup_items,
}

-- The text `s` stands under the name `key` in the object itself, or in one that is nested in the value.
mutual
  pub data Holds {F : Type 0} (key s : String) : Json F → Type 0 where
    here : {m : Fields F} → member key m ≡ some (Json.str s) → Holds key s (Json.obj m)
    under : {m : Fields F} → HoldsIn key s m → Holds key s (Json.obj m)
    among : {xs : Items F} → HoldsAt key s xs → Holds key s (Json.arr xs)

  pub data HoldsIn {F : Type 0} (key s : String) : Fields F → Type 0 where
    in_value :
        {k : String} {v : Json F} {m : Fields F}
        → Holds key s v
        → HoldsIn key s (Fields.field k v m)
    in_rest :
        {k : String} {v : Json F} {m : Fields F}
        → HoldsIn key s m
        → HoldsIn key s (Fields.field k v m)

  pub data HoldsAt {F : Type 0} (key s : String) : Items F → Type 0 where
    at_head : {v : Json F} {xs : Items F} → Holds key s v → HoldsAt key s (Items.cons v xs)
    at_tail : {v : Json F} {xs : Items F} → HoldsAt key s xs → HoldsAt key s (Items.cons v xs)

string_from_map-member :
    {F : Type 0} (key s : String) (m : Fields F)
    → string_from_map m key ≡ some s
    → member key m ≡ some (Json.str s)
string_from_map-member key s m h = elim (Option-cases (member key m)) [
  | inl e ↦ cc
  | inr (v, e) ↦ of_value v e
]
  where
    of_value : (v : Json _) → member key m ≡ some v → member key m ≡ some (Json.str s)
    of_value (Json.str t) e = cc
    of_value _ e = cc

-- Which of two searches found the text.
pub or_then-some :
    (o later : Option String) (s : String)
    → or_then o later ≡ some s
    → (o ≡ some s) ⊎ ((o ≡ none) × (later ≡ some s))
or_then-some none later s h = inr (refl, h)
or_then-some (some t) later s h = inl h

or_then-none : (o later : Option String) → or_then o later ≡ none → (o ≡ none) × (later ≡ none)
or_then-none none later h = (refl, h)
or_then-none (some t) later h = absurd (cc)

mutual
  unfolding lookup_string_deep

  sound :
      {F : Type 0} (key s : String) (v : Json F) → lookup_string_deep v key ≡ some s → Holds key s v
  sound key s (Json.obj m) h =
      elim (or_then-some (string_from_map m key) (lookup_fields m key) s h) [
        | inl e ↦ here (string_from_map-member key s m e)
        | inr (n, e) ↦ under (sound_in key s m e)
      ]
  sound key s (Json.arr xs) h = among (sound_at key s xs h)
  sound key s _ h = absurd (cc)

  sound_in :
      {F : Type 0} (key s : String) (m : Fields F) → lookup_fields m key ≡ some s → HoldsIn key s m
  sound_in key s Fields.end h = absurd (cc)
  sound_in key s (Fields.field k v m) h =
      elim (or_then-some (lookup_string_deep v key) (lookup_fields m key) s h) [
        | inl e ↦ in_value (sound key s v e)
        | inr (n, e) ↦ in_rest (sound_in key s m e)
      ]

  sound_at :
      {F : Type 0} (key s : String) (xs : Items F) → lookup_items xs key ≡ some s → HoldsAt key s xs
  sound_at key s Items.nil h = absurd (cc)
  sound_at key s (Items.cons v xs) h =
      elim (or_then-some (lookup_string_deep v key) (lookup_items xs key) s h) [
        | inl e ↦ at_head (sound key s v e)
        | inr (n, e) ↦ at_tail (sound_at key s xs e)
      ]

mutual
  unfolding lookup_string_deep

  complete :
      {F : Type 0} (key s : String) {v : Json F} → Holds key s v → lookup_string_deep v key ≢ none
  complete key s (here {m} e) h =
      absurd (cc (e, (or_then-none (string_from_map m key) (lookup_fields m key) h).0))
  complete key s (under {m} i) h =
      complete_in key s i (or_then-none (string_from_map m key) (lookup_fields m key) h).1
  complete key s (among i) h = complete_at key s i h

  complete_in :
      {F : Type 0} (key s : String) {m : Fields F} → HoldsIn key s m → lookup_fields m key ≢ none
  complete_in key s (in_value {k} {v} {m} i) h =
      complete key s i (or_then-none (lookup_string_deep v key) (lookup_fields m key) h).0
  complete_in key s (in_rest {k} {v} {m} i) h =
      complete_in key s i (or_then-none (lookup_string_deep v key) (lookup_fields m key) h).1

  complete_at :
      {F : Type 0} (key s : String) {xs : Items F} → HoldsAt key s xs → lookup_items xs key ≢ none
  complete_at key s (at_head {v} {xs} i) h =
      complete key s i (or_then-none (lookup_string_deep v key) (lookup_items xs key) h).0
  complete_at key s (at_tail {v} {xs} i) h =
      complete_at key s i (or_then-none (lookup_string_deep v key) (lookup_items xs key) h).1

-- The search finds a text that stands in the document under the name that was looked for, in its
-- outermost object or in a nested one; or it finds nothing, and no text stands under that name anywhere.
pub lookup_string_deep_lem :
    {F : Type 0} (doc : Json F) (key : String)
    → ((s : String) × (lookup_string_deep doc key ≡ some s) × Holds key s doc)
      ⊎ ((lookup_string_deep doc key ≡ none) × ((s : String) → ¬ Holds key s doc))
lookup_string_deep_lem doc key = elim (Option-cases (lookup_string_deep doc key)) [
  | inl n ↦ inr (n, λ s h. complete key s h n)
  | inr (s, e) ↦ inl (s, e, sound key s doc e)
]

-- If all texts under the name are one text, that one is found, in whatever order a map is visited.
pub lookup_string_deep_unique :
    {F : Type 0} (doc : Json F) (key s : String)
    → Holds key s doc
    → ((t : String) → Holds key t doc → t ≡ s)
    → lookup_string_deep doc key ≡ some s
lookup_string_deep_unique doc key s h only = elim (lookup_string_deep_lem doc key) [
  | inl (t, e, i) ↦ cc (e, only t i)
  | inr (n, nowhere) ↦ absurd (nowhere s h)
]

-- What is found stands there.
pub lookup_string_deep-Holds :
    {F : Type 0} (doc : Json F) (key s : String)
    → lookup_string_deep doc key ≡ some s
    → Holds key s doc
lookup_string_deep-Holds doc key s h = sound key s doc h

-- The outermost object comes first.
pub lookup_string_deep-outermost :
    {F : Type 0} (m : Fields F) (key s : String)
    → member key m ≡ some (Json.str s)
    → lookup_string_deep (Json.obj m) key ≡ some s
unfolding lookup_string_deep
lookup_string_deep-outermost m key s h =
    ap {A = Option (Json _)}
      (λ o. or_then (elim o [ none ↦ none | some v ↦ as_string v ]) (lookup_fields m key)) h

pub string_from_map-Holds :
    {F : Type 0} (m : Fields F) (key s : String)
    → string_from_map m key ≡ some s
    → Holds key s (Json.obj m)
string_from_map-Holds m key s h = here (string_from_map-member key s m h)

pub member-HoldsIn :
    {F : Type 0} (m : Fields F) (k key s : String) (v : Json F)
    → member k m ≡ some v
    → Holds key s v
    → HoldsIn key s m
member-HoldsIn Fields.end k key s v e h = absurd (cc)
member-HoldsIn (Fields.field j w m) k key s v e h = elim (Bool-cases (str_eq j k)) [
  | inl t ↦ let same : w ≡ v = ground (arith, e, t) in in_value (subst (Holds key s) (sym same) h)
  | inr t ↦ in_rest (member-HoldsIn m k key s v (rw t at e) h)
]
