-- ===== src/Transaction/State.antt =====
-- The state of src/adr_kit/integrity/transaction.py and its statements as actions on that state.
use adr_architecture_kit.Base.{
  ℕ, String, Option, none, some, List, Bool, true, false, ◌==◌, if◌then◌else◌,
}

abbrev pub Bytes : Type 0
Bytes = List ℕ

-- The regular files of a directory tree, by path.
abbrev pub Files : Type 0
Files = String → Option Bytes

abbrev pub write : Files → String → Bytes → Files
write files path content other = if path == other then some content else files other

abbrev pub unlink : Files → String → Files
unlink files path other = if path == other then none else files other

abbrev pub exists : Option Bytes → Bool
exists none = false
exists (some content) = true

-- A copy of the file, if there is one, over what the place held before.
abbrev pub copied : Option Bytes → Option Bytes → Option Bytes
copied none before = before
copied (some content) before = some content

pub record PlannedWrite : Type 0 where
  pub relative_path : String
  pub absolute_path : String
  pub content : Bytes
  pub operation : String

abbrev pub is_create : PlannedWrite → Bool
is_create item = item.operation == "create"

-- The points at which `fault` is called, and the file operations that the system may refuse:
-- `manifest_io` the writes of the manifest and of the state `committing`, `restore_io` a copy or
-- removal by the handler, `temp_unlink_io` the removal of a temporary file, `state_io` the write of
-- the state at the end, and `journal_io` the removal of the journal.
pub data Phase : Type 0 where
  before_staging during_staging after_staging before_commit after_partial_commit : Phase
  during_commit : String → Phase
  stage_io overlay_io backup_io mkstemp_io temp_io replace_io restore_io : String → Phase
  manifest_io temp_unlink_io state_io journal_io : Phase

pub data Error : Type 0 where
  injected : Phase → Error
  create_target_exists : String → Error
  staged_invalid : Error
  file_not_found : String → Error

pub data JournalState : Type 0 where
  committing recovered committed : JournalState

pub record ManifestEntry : Type 0 where
  pub relative_path : String
  pub operation : String
  pub backup : Option String
  pub staged : String

-- The project's files, by absolute path; the journal's directories, by relative path; the
-- temporary files beside the targets; and the local `replaced` of the commit loop.
pub record Machine : Type 0 where
  pub files : Files
  pub staging : Files
  pub backups : Files
  pub overlay : Files
  pub manifest : List ManifestEntry
  pub state : Option JournalState
  pub journal_present : Bool
  pub temps : List Bytes
  pub replaced : List PlannedWrite
  pub calls : ℕ

pub data Outcome (A : Type 0) : Type 0 where
  return : A → Outcome A
  raised : Error → Outcome A

abbrev pub Exec : Type 0 → Type 0
Exec A = Machine → Outcome A × Machine

abbrev pub and_then : {A B : Type 0} → Outcome A → (A → Exec B) → Exec B
and_then (return a) f s = f a s
and_then (raised e) f s = (raised e, s)

infixl 5 ◌>>=◌ ◌>>◌
abbrev pub ◌>>=◌ : {A B : Type 0} → Exec A → (A → Exec B) → Exec B
◌>>=◌ m f s = let (r, s') = m s in and_then r f s'

abbrev pub ◌>>◌ : {A B : Type 0} → Exec A → Exec B → Exec B
m >> k = m >>= λ _. k

abbrev pub pure : {A : Type 0} → A → Exec A
pure a s = (return a, s)

abbrev pub modify : (Machine → Machine) → Exec Unit
modify f s = (return tt, f s)
