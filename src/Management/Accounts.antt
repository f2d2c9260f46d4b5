-- ===== src/Management/Accounts.antt =====
-- Which accounts the plugin sees: `listCodexAccountsForUI` and `listCodexAuthIndexes` of main.go,
-- `debugAuthList` and `accountsJSON` of management.go.
-- `sort.Slice` may leave equal names in any order; here they keep the host's.
use Prim.Native.Char.{code}
use cpa_plugin_codex_auto_re.Prelude.{
  ℕ, ◌+◌, String, Bool, true, false, not, ◌&&◌, ◌||◌, Option, none, some, List, [], ◌∷◌, map,
  length, if◌then◌else◌, str_eq, leb, ◌==◌, contains, sort_stable,
}
use cpa_plugin_codex_auto_re.Models.{say, Value}
use cpa_plugin_codex_auto_re.Client.{Result, ok, err}
use cpa_plugin_codex_auto_re.Config.{config_enables_all}
use cpa_plugin_codex_auto_re.Worker.Accounts.{str_less}
use cpa_plugin_codex_auto_re.Management.Requests.{
  AccountOption, AuthEntry, Diagnosis, Body, Response,
}

abbrev fold : ℕ → ℕ
fold c = if leb 65 c && leb c 90 then c + 32 else c

-- `strings.EqualFold` with a text whose letters fold to ASCII letters only.
abbrev pub equal_fold : String → String → Bool
equal_fold String.[] String.[] = true
equal_fold String.[] (String.◌∷◌ d t) = false
equal_fold (String.◌∷◌ c s) String.[] = false
equal_fold (String.◌∷◌ c s) (String.◌∷◌ d t) = fold (code c) == fold (code d) && equal_fold s t

abbrev pub is_codex : AuthEntry → Bool
is_codex a = equal_fold a.provider "codex" || equal_fold a.type_name "codex"

-- The first of the texts that is not empty, or the last.
abbrev pub label : AuthEntry → String
label a =
    if not (str_eq a.id "")
    then a.id
    else if not (str_eq a.name "")
    then a.name
    else if not (str_eq a.email "")
    then a.email
    else a.auth_index

abbrev pub option_of : AuthEntry → AccountOption
option_of a = record {
  auth_index = a.auth_index;
  id = a.id;
  name = label a;
  email = a.email;
  account = a.account;
  enabled = false;
}

-- The loop over the entries, with its two `continue`s.
abbrev pub options_of : List AuthEntry → List AccountOption
options_of [] = []
options_of (a ∷ rest) =
    let opts = options_of rest in
    if not (is_codex a) then opts else if a.disabled then opts else option_of a ∷ opts

unfoldable pub list_codex_accounts_for_ui : Result (List AuthEntry) → Result (List AccountOption)
list_codex_accounts_for_ui (err e) = err e
list_codex_accounts_for_ui (ok auths) =
    ok (sort_stable (λ a b. str_less a.name b.name) (options_of auths))

unfoldable pub list_codex_auth_indexes : Result (List AuthEntry) → Result (List String)
unfolding list_codex_accounts_for_ui
list_codex_auth_indexes auths = elim (list_codex_accounts_for_ui auths) [
  | err e ↦ err e
  | ok opts ↦ ok (map (λ o. o.auth_index) opts)
]

abbrev pub diagnose : AuthEntry → Diagnosis
diagnose a =
    if is_codex a
    then record {
      entry = a;
      matches_codex = true;
      skipped = if a.disabled || a.unavailable then "disabled/unavailable" else "";
    }
    else record { entry = a; matches_codex = false; skipped = "provider/type not codex" }

unfoldable pub debug_auth_list : Result (List AuthEntry) → Response
debug_auth_list (err e) =
    (502, Body.failure (record { format = "host.auth.list: %s"; args = Value.err_text e ∷ [] }))
debug_auth_list (ok auths) = (200, Body.diagnoses (length auths) (map diagnose auths))

-- Which of the listed accounts are enabled.
abbrev pub marked : List String → List AccountOption → List AccountOption
marked enabled opts =
    map {A = AccountOption}
      (λ o. record o { enabled = config_enables_all enabled || contains o.auth_index enabled }) opts

unfoldable pub accounts_json : List String → Option (Result (List AccountOption)) → Response
unfolding config_enables_all
accounts_json enabled none =
    (503, Body.failure (say "account listing unavailable (host not wired)"))
accounts_json enabled (some (err e)) =
    (502, Body.failure (record { format = "list accounts: %s"; args = Value.err_text e ∷ [] }))
accounts_json enabled (some (ok opts)) = (200, Body.accounts (marked enabled opts))
