-- ===== src/Transaction.antt =====
-- src/adr_kit/integrity/transaction.py: the journaled all-or-none commit of planned writes.
pub mod State
mod Triples
mod Preparation
mod CommitLoop
pub mod Handler
pub mod Atomicity
mod LastWrite
pub mod Success
pub mod Totality
mod Tests
use text.Mathlib.Text.{starts_with}
use adr_architecture_kit.Base.{
  ℕ, ◌+◌, String, Option, none, some, List, [], ◌∷◌, ◌++◌, Bool, true, false, ◌&&◌, ◌||◌, ◌==◌,
  if◌then◌else◌,
}
use State.{
  Bytes, Files, write, unlink, exists, copied, PlannedWrite, is_create, Phase, before_staging,
  during_staging, after_staging, before_commit, after_partial_commit, during_commit, stage_io,
  overlay_io, backup_io, mkstemp_io, temp_io, replace_io, restore_io, manifest_io, temp_unlink_io,
  state_io, journal_io, Error, injected, create_target_exists, staged_invalid, file_not_found,
  JournalState, committing, recovered, committed, ManifestEntry, Machine, Outcome, return, raised,
  Exec, ◌>>=◌, ◌>>◌, pure, modify,
}

-- The source copies these into the overlay: the tree `adrs`, `ROADMAP.md` and `PROJECT.yaml`.
pub governed : String → Bool
governed path = starts_with path "adrs/" || path == "ROADMAP.md" || path == "PROJECT.yaml"

abbrev pub fill : Bytes → List Bytes → List Bytes
fill content [] = []
fill content (temp ∷ temps) = content ∷ temps

abbrev pub moved : List Bytes → List Bytes
moved [] = []
moved (temp ∷ temps) = temps

pub read_staged : String → Exec Bytes
read_staged path s = elim (s.staging path) [
  | none ↦ (raised (file_not_found path), s)
  | some content ↦ (return content, s)
]

-- What the handler's loop over `reversed(replaced)` does with an item.
pub restore_one : PlannedWrite → Files → Files → Files
restore_one item backups files = elim (backups item.relative_path) [
  | some content ↦ write files item.absolute_path content
  | none ↦
      if is_create item && exists (files item.absolute_path)
      then unlink files item.absolute_path
      else files
]

-- The whole loop; the first item of the list is restored last.
pub restore : List PlannedWrite → Files → Files → Files
restore [] backups files = files
restore (item ∷ items) backups files = restore_one item backups (restore items backups files)

pub manifest_entry : PlannedWrite → Option Bytes → ManifestEntry
manifest_entry item original = record {
  relative_path = item.relative_path;
  operation = item.operation;
  backup = if exists original then some item.relative_path else none;
  staged = item.relative_path;
}

abbrev pub open_journal : Machine → Machine
open_journal s = record s {
  staging = (λ path. none);
  backups = (λ path. none);
  overlay = (λ path. none);
  manifest = [];
  state = none;
  journal_present = true;
  temps = [];
  replaced = [];
}

abbrev pub interrupted : Option JournalState → Bool
interrupted (some committing) = true
interrupted (some recovered) = true
interrupted (some committed) = false
interrupted none = false

-- `fault n phase`: does the n-th of these calls raise? `at_root` is pathlib's `root / path`, and
-- `accepts` says whether `validate_staged` returns.
module _ (at_root : String → String) (fault : ℕ → Phase → Bool) (accepts : Files → Bool) where
  pub inject : Phase → Exec Unit
  inject phase s = (
    if fault s.calls phase then raised (injected phase) else return tt,
    record s { calls = s.calls + 1 },
  )

  pub stage : PlannedWrite → Exec Unit
  stage item = do
    inject during_staging
    inject (stage_io item.relative_path)
    modify (λ s. record s { staging = write s.staging item.relative_path item.content })

  pub stage_all : List PlannedWrite → Exec Unit
  stage_all [] = pure tt
  stage_all (item ∷ items) = do stage item; stage_all items

  pub copy_authority : Exec Unit
  unfolding governed
  copy_authority =
      modify
        λ s. record s { overlay = λ path. if governed path then s.files (at_root path) else none }

  pub refuse_existing : PlannedWrite → Exec Unit
  refuse_existing item s =
      if is_create item && exists (s.files (at_root item.relative_path))
      then (raised (create_target_exists item.relative_path), s)
      else (return tt, s)

  pub overlay_one : PlannedWrite → Exec Unit
  overlay_one item = do
    refuse_existing item
    content ← read_staged item.relative_path
    inject (overlay_io item.relative_path)
    modify (λ s. record s { overlay = write s.overlay item.relative_path content })

  pub overlay_all : List PlannedWrite → Exec Unit
  overlay_all [] = pure tt
  overlay_all (item ∷ items) = do overlay_one item; overlay_all items

  pub validate : Exec Unit
  validate s = (if accepts s.overlay then return tt else raised staged_invalid, s)

  -- One round of the loop that copies the existing targets and builds the manifest.
  pub backup_one : PlannedWrite → Exec Unit
  backup_one item = do
    inject (backup_io item.relative_path)
    modify λ s.
        let original = s.files (at_root item.relative_path) in
        record s {
          backups = (λ path.
              if item.relative_path == path
              then copied original (s.backups path)
              else s.backups path);
          manifest = s.manifest ++ manifest_entry item original ∷ [];
        }

  pub backup_all : List PlannedWrite → Exec Unit
  backup_all [] = pure tt
  backup_all (item ∷ items) = do backup_one item; backup_all items

  -- One round of the commit loop. A temporary file is made, filled and moved over the target.
  pub commit_one : PlannedWrite → Exec Unit
  commit_one item = do
    inject (during_commit item.relative_path)
    inject (mkstemp_io item.relative_path)
    modify (λ s. record s { temps = [] ∷ s.temps })
    content ← read_staged item.relative_path
    inject (temp_io item.relative_path)
    modify (λ s. record s { temps = fill content s.temps })
    inject (replace_io item.relative_path)
    modify λ s. record s {
      files = write s.files item.absolute_path content;
      temps = moved s.temps;
      replaced = s.replaced ++ item ∷ [];
    }
    inject after_partial_commit

  pub commit_all : List PlannedWrite → Exec Unit
  commit_all [] = pure tt
  commit_all (item ∷ items) = do commit_one item; commit_all items

  -- for temp_path in temps: if temp_path.exists(): temp_path.unlink()
  pub unlink_temps : List Bytes → Exec Unit
  unlink_temps [] = pure tt
  unlink_temps (temp ∷ temps) = do
    inject temp_unlink_io
    modify (λ s. record s { temps = temps })
    unlink_temps temps

  -- (journal / "state").write_text(...); a refused write leaves the state as it was
  pub write_state : JournalState → Exec Unit
  write_state state = do inject state_io; modify (λ s. record s { state = some state })

  -- `restore`, in which the system may refuse each copy and removal.
  pub restore_each : List PlannedWrite → Exec Unit
  restore_each [] = pure tt
  restore_each (item ∷ items) = do
    restore_each items
    inject (restore_io item.relative_path)
    modify (λ s. record s { files = restore_one item s.backups s.files })

  pub roll_back : Exec Unit
  roll_back s =
      (restore_each s.replaced >> (λ t. unlink_temps t.temps t) >> write_state recovered) s

  -- The handler; its own exception takes the place of the one that it would raise again.
  pub recover : Error → Exec Unit
  recover e = roll_back >> λ s. (raised e, s)

  -- After the loop; this is outside the `try` of the handler.
  pub finish : Exec Unit
  finish = (λ s. unlink_temps s.temps s) >> write_state committed

  pub settle : Outcome Unit → Exec Unit
  settle (return a) = finish
  settle (raised e) = recover e

  -- finally: the journal is kept unless the state is `committed`. An error of its removal is
  -- ignored, and the journal is left.
  pub drop_journal : Machine → Machine
  drop_journal s = elim s.state [
    | some committed ↦ record s { journal_present = fault s.calls journal_io }
    | _ ↦ s
  ]

  pub commit_or_recover : List PlannedWrite → Exec Unit
  commit_or_recover items s = let (result, after) = commit_all items s in settle result after

  pub prepare : List PlannedWrite → Exec Unit
  prepare items = do
    inject before_staging
    stage_all items
    inject after_staging
    copy_authority
    overlay_all items
    validate
    inject before_commit
    backup_all items
    inject manifest_io
    modify (λ s. record s { state = some committing; replaced = []; temps = [] })

  pub commit_all_or_none : List PlannedWrite → Exec Unit
  commit_all_or_none items s =
      let (result, after) = (prepare items >> commit_or_recover items) (open_journal s) in
      (result, drop_journal after)

-- The recovery of a crash; the system refuses nothing here. `restore_entry` is a manifest item's
-- turn in the loop over `reversed(manifest)`; `at_root` is `root / path`.
module _ (at_root : String → String) where
  pub restore_entry : ManifestEntry → Files → Files → Outcome Unit × Files
  restore_entry entry backups files = elim entry.backup [
    | some backup ↦ elim (backups backup) [
      | some content ↦ (return tt, write files (at_root entry.relative_path) content)
      | none ↦ (raised (file_not_found backup), files)
    ]
    | none ↦
        if entry.operation == "create" && exists (files (at_root entry.relative_path))
        then (return tt, unlink files (at_root entry.relative_path))
        else (return tt, files)
  ]

  pub restore_manifest : List ManifestEntry → Files → Files → Outcome Unit × Files
  restore_manifest [] backups files = (return tt, files)
  restore_manifest (entry ∷ entries) backups files =
      let (result, after) = restore_manifest entries backups files in
      elim result [ return a ↦ restore_entry entry backups after | raised e ↦ (raised e, after) ]

  restore_journal : Exec Unit
  restore_journal s =
      let (result, after) = restore_manifest s.manifest s.backups s.files in
      elim result [
        | return a ↦ (return tt, record s { files = after; state = some recovered })
        | raised e ↦ (raised e, record s { files = after })
      ]

  pub recover_interrupted_commit : Exec Unit
  recover_interrupted_commit s = if interrupted s.state then restore_journal s else (return tt, s)
