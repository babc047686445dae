-- ===== src/Transaction/Tests.antt =====
-- Runs of the commit on a small project, and the theorems at it.
use adr_architecture_kit.Base.{
  ℕ, String, ◌≡◌, refl, none, some, List, [], ◌∷◌, Bool, true, false, ◌==◌, if◌then◌else◌, eqb,
  ◌&&◌,
}
use adr_architecture_kit.Transaction.State.{
  Bytes, Files, copied, PlannedWrite, Phase, after_partial_commit, state_io, Machine, return,
  raised, injected,
}
use adr_architecture_kit.Transaction.CommitLoop.{All}
use adr_architecture_kit.Transaction.Atomicity.{
  SameFiles, IsPlan, commit_all_or_none-raised, recover_interrupted_commit-commit_all,
}
use adr_architecture_kit.Transaction.LastWrite.{last_written}
use adr_architecture_kit.Transaction.Success.{commit_all_or_none-returned}
use adr_architecture_kit.Transaction.Totality.{commit_all_or_none-returns}
use adr_architecture_kit.Transaction.{
  governed, inject, read_staged, stage, stage_all, copy_authority, refuse_existing, overlay_one,
  overlay_all, validate, manifest_entry, backup_one, backup_all, prepare, commit_one, commit_all,
  restore_one, restore, restore_each, unlink_temps, write_state, roll_back, recover, finish, settle,
  commit_or_recover, drop_journal, open_journal, commit_all_or_none, recover_interrupted_commit,
}

abbrev at_root : String → String
at_root path = path

abbrev project : Files
project path = if path == "ROADMAP.md" then some (1 ∷ []) else none

abbrev start : Machine
start = record {
  files = project;
  staging = (λ path. none);
  backups = (λ path. none);
  overlay = (λ path. none);
  manifest = [];
  state = none;
  journal_present = false;
  temps = [];
  replaced = [];
  calls = 0;
}

abbrev planned_write : String → Bytes → String → PlannedWrite
planned_write path content operation = record {
  relative_path = path;
  absolute_path = path;
  content = content;
  operation = operation;
}

abbrev writes : List PlannedWrite
writes =
    planned_write "adrs/new.yaml" (7 ∷ []) "create"
    ∷ planned_write "ROADMAP.md" (2 ∷ []) "amend"
    ∷ []

abbrev is_partial : Phase → Bool
is_partial after_partial_commit = true
is_partial _ = false

-- Fails after the second replacement.
abbrev late : ℕ → Phase → Bool
late n phase = is_partial phase && eqb n 21

abbrev quiet : ℕ → Phase → Bool
quiet n phase = false

abbrev accepts_all : Files → Bool
accepts_all files = true

run : Unit {0}
unfolding governed inject read_staged stage stage_all copy_authority refuse_existing overlay_one
    overlay_all validate manifest_entry backup_one backup_all prepare commit_one commit_all
    restore_one restore restore_each unlink_temps write_state roll_back recover finish settle
    commit_or_recover drop_journal commit_all_or_none
run = tt

raised_late :
    (commit_all_or_none at_root late accepts_all writes start).0
    ≡ raised (injected after_partial_commit)
unfolding run
raised_late = refl

returned_quiet : (commit_all_or_none at_root quiet accepts_all writes start).0 ≡ return tt
unfolding run
returned_quiet = refl

planned : All (IsPlan at_root project) writes
planned = ((refl, λ h. refl), ((refl, λ h. absurd (cc)), tt))

-- The handler restored the roadmap and removed the new file.
restored_late :
    ((commit_all_or_none at_root late accepts_all writes start).1.files "ROADMAP.md"
      ≡ some (1 ∷ []))
    × ((commit_all_or_none at_root late accepts_all writes start).1.files "adrs/new.yaml" ≡ none)
unfolding run
restored_late = (refl, refl)

abbrev is_state_io : Phase → Bool
is_state_io state_io = true
is_state_io _ = false

-- The write of the state at the end fails: the commit raises, and the files stay replaced.
unmarked :
    ((commit_all_or_none at_root (λ n phase. is_state_io phase) accepts_all writes start).0
      ≡ raised (injected state_io))
    × ((commit_all_or_none at_root (λ n phase. is_state_io phase) accepts_all writes start).1.files
          "ROADMAP.md"
        ≡ some (2 ∷ []))
unfolding run
unmarked = (refl, refl)

commit_all_or_none-raised_example :
    SameFiles project (commit_all_or_none at_root late accepts_all writes start).1
commit_all_or_none-raised_example =
    commit_all_or_none-raised at_root late accepts_all writes start planned
      (injected after_partial_commit) raised_late refl

prepared : Machine
unfolding run
prepared = (prepare at_root late accepts_all writes (open_journal start)).1

prepared_lem : prepare at_root late accepts_all writes (open_journal start) ≡ (return tt, prepared)
unfolding prepared
prepared_lem = refl

recover_interrupted_commit-commit_all_example :
    let crashed = (commit_all at_root late accepts_all writes prepared).1 in
    ((recover_interrupted_commit at_root crashed).0 ≡ return tt)
    × SameFiles project (recover_interrupted_commit at_root crashed).1
recover_interrupted_commit-commit_all_example =
    recover_interrupted_commit-commit_all at_root late accepts_all writes start prepared planned
      prepared_lem

commit_all_or_none-returned_example :
    ((path : String)
      → (commit_all_or_none at_root quiet accepts_all writes start).1.files path
        ≡ copied (last_written path writes) (project path))
    × ((commit_all_or_none at_root quiet accepts_all writes start).1.journal_present ≡ false)
    × ((commit_all_or_none at_root quiet accepts_all writes start).1.temps ≡ [])
commit_all_or_none-returned_example =
    commit_all_or_none-returned at_root quiet accepts_all writes start (refl, (refl, tt))
      returned_quiet

commit_all_or_none-returns_example :
    (commit_all_or_none at_root quiet accepts_all writes start).0 ≡ return tt
commit_all_or_none-returns_example =
    commit_all_or_none-returns at_root quiet accepts_all (λ n phase. refl) writes start
      (refl, (refl, tt)) refl
