-- ===== src/Scenarios/Records.antt =====
-- The theorems on the configuration, the state file and the history, at work on concrete data.
use cpa_plugin_codex_auto_re.Prelude.{
  ◌≡◌, refl, ◌⊎◌, String, true, false, Option, none, some, [], ◌∷◌, if◌then◌else◌, str_eq, arith,
  insert, pos,
}
use cpa_plugin_codex_auto_re.Models.{
  Time, hours, Config, LogEntry, ResetRecord, State, say, Message, NextAt, Value,
}
use cpa_plugin_codex_auto_re.Config.{normalize_config}
use cpa_plugin_codex_auto_re.Config.Normal.{IsNormal, normalize_config-IsNormal}
use cpa_plugin_codex_auto_re.Store.{PluginState}
use cpa_plugin_codex_auto_re.Store.Disk.{Disk, read_file, write_file, rename}
use cpa_plugin_codex_auto_re.Store.File.{
  loaded, fresh_state, save_state, load_state, migrate_state_file,
}
use cpa_plugin_codex_auto_re.Store.Recovery.{
  content, save_state_atomic, save_state-load_state, load_state-corrupt, load_state-recovers,
}
use cpa_plugin_codex_auto_re.Store.Migration.{migrate_state_file_once}
use cpa_plugin_codex_auto_re.Fsm.Machine.{AccountFsm}
use cpa_plugin_codex_auto_re.Scenarios.Sample.{config, account, attempt}

abbrev untidy : Config
untidy = record config { refresh_interval = pos 5; enabled_accounts = " a " ∷ "b" ∷ "a" ∷ "" ∷ [] }

normalize_config-IsNormal_example : IsNormal (normalize_config untidy)
normalize_config-IsNormal_example = normalize_config-IsNormal untidy

abbrev saved : PluginState
saved = record fresh_state { config = config }

abbrev marshal : PluginState → Option String
marshal s = some "S"

abbrev unmarshal : String → Option PluginState
unmarshal b = if str_eq b "S" then some saved else none

abbrev disk : Disk
disk = record { files = ("old", "S") ∷ []; failing = 0; full = none; can_mkdir = true }

save_state_atomic_example :
    let (done, after) = save_state marshal unmarshal "main" saved disk in
    ((done ≡ false) × (content "main" after ≡ none))
    ⊎ ((done ≡ true) × ((raw : String) × (some "S" ≡ some raw) × (content "main" after ≡ some raw)))
save_state_atomic_example = save_state_atomic marshal unmarshal "main" saved disk

save_state-load_state_example :
    (load_state marshal unmarshal "t" "main" (save_state marshal unmarshal "main" saved disk).1).0
    ≡ loaded saved "main"
unfolding save_state write_file rename
save_state-load_state_example =
    save_state-load_state marshal unmarshal "t" "main" saved "S" disk refl refl (omega arith) refl

abbrev damaged : Disk
damaged = record disk { files = ("main", "garbage") ∷ ("main.bak", "S") ∷ [] }

load_state-recovers_example :
    let after = (load_state marshal unmarshal "t" "old" disk).1 in
    (load_state marshal unmarshal "u" "old"
      (record after { files = insert "old" "garbage" after.files })).0
    ≡ loaded saved "corrupt-main,backup"
load_state-recovers_example =
    load_state-recovers marshal unmarshal "t" "u" "old" "S" "garbage" saved disk refl refl refl
      (omega arith) refl

load_state-corrupt_example :
    let (r, after) = load_state marshal unmarshal "t" "main" damaged in
    (content "main.corrupt-t" after ≡ some "garbage")
    × (content "main" after ≡ some "garbage")
    × (((b : String) (s : PluginState)
        → content "main.bak" damaged ≡ some b
        → unmarshal b ≡ some s
        → r ≡ loaded s "corrupt-main,backup"))
    × (content "main.bak" damaged ≡ none
        → r ≡ loaded fresh_state "corrupt-main,fresh-after-corrupt")
load_state-corrupt_example =
    load_state-corrupt marshal unmarshal "t" "main" "garbage" damaged refl refl (omega arith) refl

abbrev moved_name : String
moved_name = "old.migrated"

migrate_state_file_once_example :
    let after = (migrate_state_file marshal unmarshal "old" "new" disk).1 in
    (content "new" disk ≡ none)
    × ((old : String) × (s : PluginState) × (new : String) × (content "old" disk ≡ some old)
        × (unmarshal old ≡ some s)
        × (marshal s ≡ some new)
        × ((moved_name ≡ "new") ⊎ (content "new" after ≡ some new)))
    × ((migrate_state_file marshal unmarshal "old" "new" after).0 ≡ false)
unfolding migrate_state_file read_file save_state write_file rename
migrate_state_file_once_example = migrate_state_file_once marshal unmarshal "old" "new" disk refl

-- A log that holds the verdict of a reset.
abbrev verdict : LogEntry
verdict = record {
  timestamp = hours 7;
  level = "info";
  scope = "a";
  state = some State.done;
  message = say "reset verified OK";
  next_action = say "";
  next_at = NextAt.nil;
  details = ("credit_id", Value.text "c1") ∷ ("pre_credits", Value.number (pos 2)) ∷ [];
}

abbrev format : Time → String
format t = "t"

abbrev render : Message → String
render m = m.format

abbrev with_log : PluginState
with_log = record saved { logs = verdict ∷ [] }

abbrev finished : ResetRecord
finished = record {
  timestamp = hours 7;
  auth_id = "a";
  credit_id = "c1";
  success = true;
  pre_weekly_pct = pos 40;
  post_weekly_pct = pos 100;
  pre_credits = pos 2;
  post_credits = pos 1;
}

abbrev with_record : AccountFsm
with_record = record (account State.idle attempt "") { pending_history = some finished }
