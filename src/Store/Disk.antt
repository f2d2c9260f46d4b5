-- ===== src/Store/Disk.antt =====
-- The file operations of package os that state.go uses, on a disk of named files.
-- `os.WriteFile` truncates the file before it writes, so a write that fails may leave a part of its bytes.
use cpa_plugin_codex_auto_re.Prelude.{
  ℕ, zero, suc, String, Bool, true, false, Option, none, some, List, lookup, insert, erase,
}

pub record Disk : Type 0 where
  pub files : List (String × String)
  -- How many of the next reads fail for a passing reason.
  pub failing : ℕ
  -- What a write leaves of its file while writes fail; `none` while they succeed.
  pub full : Option String
  -- Whether directories can be made.
  pub can_mkdir : Bool

-- The outcome of `os.ReadFile`: the bytes, an error for which `os.IsNotExist` holds, or another.
pub data Read : Type 0 where
  bytes : String → Read
  not_exist : Read
  failed : Read

abbrev pub found : Option String → Read
found none = Read.not_exist
found (some b) = Read.bytes b

abbrev read_after : ℕ → String → Disk → Read × Disk
read_after zero path d = (found (lookup path d.files), d)
read_after (suc n) path d = (Read.failed, record d { failing = n })

unfoldable pub read_file : String → Disk → Read × Disk
read_file path d = read_after d.failing path d

abbrev written : Option String → String → String → Disk → Bool × Disk
written none path b d = (true, record d { files = insert path b d.files })
written (some part) path b d = (false, record d { files = insert path part d.files })

unfoldable pub write_file : String → String → Disk → Bool × Disk
write_file path b d = written d.full path b d

abbrev moved : Option String → String → String → Disk → Bool × Disk
moved none from to d = (false, d)
moved (some b) from to d = (true, record d { files = insert to b (erase from d.files) })

unfoldable pub rename : String → String → Disk → Bool × Disk
rename from to d = moved (lookup from d.files) from to d

-- `os.Stat` without an error.
abbrev pub exists : String → Disk → Bool
exists path d = elim (lookup path d.files) [ none ↦ false | some b ↦ true ]
