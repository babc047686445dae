-- ===== src/Transaction/Atomicity.antt =====
-- All or none: what the project's files are after an exception, a crash and a success.
use mathlib.Core.Path.{fun_ext}
use adr_architecture_kit.Base.{
  ℕ, String, ◌≡◌, refl, sym, ap, ◌∙◌, none, List, [], ◌∷◌, Bool, true, false, arith, ◌==◌, eq_iff,
  eq_refl, if◌then◌else◌,
}
use adr_architecture_kit.Transaction.State.{
  Files, PlannedWrite, is_create, Phase, Machine, Error, Outcome, return, raised, Exec, and_then,
  ◌>>◌,
}
use adr_architecture_kit.Transaction.Triples.{Triple, Triple-weaken, Post}
use adr_architecture_kit.Transaction.Preparation.{
  Snapshot, covers, backed, backed_lem, entries, empty, Prepared, prepare_lem,
}
use adr_architecture_kit.Transaction.CommitLoop.{touched, All, IsBackedUp, Loop, commit_all-Loop}
use adr_architecture_kit.Transaction.Handler.{
  is_late, Settles, finish-Settles, Recovers, recover-Recovers,
}
use adr_architecture_kit.Transaction.{
  restore_one, restore, recover, settle, prepare, commit_all, commit_or_recover, drop_journal,
  open_journal, commit_all_or_none, manifest_entry, restore_entry, restore_manifest,
  restore_journal, recover_interrupted_commit,
}

restore_one_lem :
    (files backups : Files) (item : PlannedWrite) (current : Files) (path : String)
    → IsBackedUp files backups item
    → restore_one item backups current path
      ≡ (if item.absolute_path == path then files path else current path)
unfolding restore_one
restore_one_lem files backups item current path good =
    ground (arith, eq_iff item.absolute_path path)

-- Restoring gives the replaced files back, and leaves the others alone.
restore_lem :
    (files backups : Files) (items : List PlannedWrite) (current : Files) (path : String)
    → All (IsBackedUp files backups) items
    → restore items backups current path ≡ (if touched path items then files path else current path)
unfolding restore
restore_lem files backups [] current path good = refl
restore_lem files backups (item ∷ items) current path good =
    restore_one_lem files backups item (restore items backups current) path good.0
    ∙ ground (arith, restore_lem files backups items current path good.1)

abbrev pub SameFiles : Files → Machine → Type 0
SameFiles files s = (path : String) → s.files path ≡ files path

-- The planned paths lie under the root, and only a `create` may lack its target.
abbrev pub IsPlan : (String → String) → Files → PlannedWrite → Type 0
IsPlan at_root files item =
    (item.absolute_path ≡ at_root item.relative_path)
    × (files item.absolute_path ≡ none → is_create item ≡ true)

-- An exception that is not a late one leaves the files as they are.
abbrev Kept : Files → Outcome Unit → Machine → Type 0
Kept files (return a) s = Unit
Kept files (raised e) s = is_late e ≡ false → SameFiles files s

Kept-raised :
    (files : Files) {r : Outcome Unit} (s : Machine) {e : Error}
    → r ≡ raised e
    → is_late e ≡ false
    → Kept files r s
    → SameFiles files s
Kept-raised files {r = return a} s same early h = absurd (cc)
Kept-raised files {r = raised e'} s {e} same early h =
    let error : e' ≡ e = cc (same) in h (rw error early)

Settles-Kept :
    (files : Files) (Q : Machine → Type 0) (r : Outcome Unit) (s : Machine)
    → Settles Q r s
    → Kept files r s
Settles-Kept files Q (return a) s h = tt
Settles-Kept files Q (raised e) s h = λ early. absurd (cc (h, early))

Recovers-Kept :
    (restored files : Files) (r : Outcome Unit) (s : Machine)
    → ((path : String) → restored path ≡ files path)
    → Recovers restored r s
    → Kept files r s
Recovers-Kept restored files (return a) s same h = tt
Recovers-Kept restored files (raised e) s same h =
    λ early path. ap (λ (f : Files). f path) (h early) ∙ same path

Kept-seq :
    (files : Files) (Q : Machine → Type 0) (r : Outcome Unit) (s : Machine) (k : Exec Unit)
    → Post (λ _. Q) (SameFiles files) r s
    → ((t : Machine) → Q t → Kept files (k t).0 (k t).1)
    → Kept files (and_then r (λ _. k) s).0 (and_then r (λ _. k) s).1
Kept-seq files Q (return a) s k h g = g s h
Kept-seq files Q (raised e) s k h g = λ early. h

module _ (at_root : String → String) (fault : ℕ → Phase → Bool) (accepts : Files → Bool)
    (files : Files) where
  abbrev copies : List PlannedWrite → Files
  copies items = backed at_root fault accepts files items empty

  backed-IsBackedUp :
      (planned items : List PlannedWrite)
      → ((path : String) → covers path items ≡ true → covers path planned ≡ true)
      → All (IsPlan at_root files) items
      → All (IsBackedUp files (copies planned)) items
  backed-IsBackedUp planned [] sub plan = tt
  backed-IsBackedUp planned (item ∷ items) sub plan = (
    (
      (backed_lem at_root fault accepts files planned empty item.relative_path
            ∙ rw (sub item.relative_path (rw eq_refl refl)) refl)
          ∙ ap files (sym plan.0.0),
      plan.0.1,
    ),
    backed-IsBackedUp planned items (λ path e. sub path (ground (arith, e))) plan.1,
  )

  module _ (items : List PlannedWrite) (plan : All (IsPlan at_root files) items) where
    abbrev At : Machine → Type 0
    At =
        Loop at_root fault accepts files (copies items) (entries at_root fault accepts files items)
          items

    Ready-Loop : (s : Machine) → Prepared at_root fault accepts files items s → At s
    Ready-Loop s h = record {
      outside = λ path e. ap (λ (f : Files). f path) h.snapshot.same_files;
      within = λ path e. rw h.none_replaced refl;
      backed_up = rw h.none_replaced tt;
      same_backups = h.snapshot.same_backups;
      same_manifest = h.snapshot.same_manifest;
      is_committing = h.is_committing;
    }

    commit_all-At : Triple At (commit_all at_root fault accepts items) (λ _. At) At
    commit_all-At =
        commit_all-Loop at_root fault accepts files (copies items)
          (entries at_root fault accepts files items) items items
          (backed-IsBackedUp items items (λ path e. e) plan) (λ path e. e)

    recover-Same :
        (e : Error) (s : Machine)
        → At s
        → Kept files (recover at_root fault accepts e s).0 (recover at_root fault accepts e s).1
    recover-Same e s h =
        Recovers-Kept (restore s.replaced s.backups s.files) files _ _
          (λ path.
            restore_lem files s.backups s.replaced s.files path
              (rw (fun_ext h.same_backups) h.backed_up)
            ∙ ground (arith, h.outside path))
          (recover-Recovers at_root fault accepts e s)

    commit_or_recover-Kept :
        (s : Machine)
        → Prepared at_root fault accepts files items s
        → Kept files
            (commit_or_recover at_root fault accepts items s).0
            (commit_or_recover at_root fault accepts items s).1
    unfolding commit_or_recover settle
    commit_or_recover-Kept s h =
        let (result, after) = commit_all at_root fault accepts items s in
        by_result result after (commit_all-At.at s (Ready-Loop s h))
      where
        by_result :
            (result : Outcome Unit) (after : Machine)
            → Post (λ _. At) At result after
            → Kept files
                (settle at_root fault accepts result after).0
                (settle at_root fault accepts result after).1
        by_result (return a) after h =
            Settles-Kept files _ _ _ (finish-Settles at_root fault accepts after)
        by_result (raised e) after h = recover-Same e after h

files-drop_journal :
    (at_root : String → String) (fault : ℕ → Phase → Bool) (accepts : Files → Bool) (s : Machine)
    → (drop_journal at_root fault accepts s).files ≡ s.files
unfolding drop_journal
files-drop_journal at_root fault accepts s = ground arith

restore_entry_lem :
    (at_root : String → String) (files backups : Files) (item : PlannedWrite) (current : Files)
    (path : String)
    → IsPlan at_root files item
    → IsBackedUp files backups item
    → let restored =
        restore_entry at_root
          (manifest_entry item (files (at_root item.relative_path)))
          backups
          current in
      (restored.0 ≡ return tt)
      × (restored.1 path ≡ (if item.absolute_path == path then files path else current path))
unfolding restore_entry manifest_entry
restore_entry_lem at_root files backups item current path plan good =
    (ground arith, ground (arith, eq_iff item.absolute_path path))

-- The manifest restores what the handler would, whatever part of the writes was done.
restore_manifest_lem :
    (at_root : String → String) (fault : ℕ → Phase → Bool) (accepts : Files → Bool)
    (files backups current : Files) (items : List PlannedWrite)
    → All (IsPlan at_root files) items
    → All (IsBackedUp files backups) items
    → (path : String)
    → ((restore_manifest at_root (entries at_root fault accepts files items) backups current).0
        ≡ return tt)
      × ((restore_manifest at_root (entries at_root fault accepts files items) backups current).1
            path
          ≡ (if touched path items then files path else current path))
unfolding restore_manifest
restore_manifest_lem at_root fault accepts files backups current [] plan good path = (refl, refl)
restore_manifest_lem at_root fault accepts files backups current (item ∷ items) plan good path =
    let ih =
      restore_manifest_lem at_root fault accepts files backups current items plan.1 good.1 path in
    let entry =
      restore_entry_lem at_root files backups item
        (restore_manifest at_root (entries at_root fault accepts files items) backups current).1
        path plan.0 good.0 in
    rw ih.0 (entry.0, entry.1 ∙ ground (arith, ih.1))

module _ (at_root : String → String) (fault : ℕ → Phase → Bool) (accepts : Files → Bool)
    (items : List PlannedWrite) (s : Machine) (plan : All (IsPlan at_root s.files) items) where
  open_journal-Snapshot : Snapshot s.files empty empty [] (open_journal s)
  open_journal-Snapshot = record {
    same_files = refl;
    same_staging = refl;
    same_backups = λ path. refl;
    same_manifest = refl;
  }

  whole-Kept :
      let (result, after) =
        (prepare at_root fault accepts items >> commit_or_recover at_root fault accepts items)
          (open_journal s) in
      Kept s.files result after
  whole-Kept =
      Kept-seq s.files (Prepared at_root fault accepts s.files items)
        (prepare at_root fault accepts items (open_journal s)).0
        (prepare at_root fault accepts items (open_journal s)).1
        (commit_or_recover at_root fault accepts items)
        ((Triple-weaken _ _ (λ t h path. ap (λ (f : Files). f path) h)
            (prepare_lem at_root fault accepts s.files items)).at
          (open_journal s) open_journal-Snapshot)
        (commit_or_recover-Kept at_root fault accepts s.files items plan)

  -- If the commit raises, during the preparation or at any point of the commit loop, whatever was
  -- replaced by then, every file of the project is as it was before the call. Excepted are the
  -- errors that the system gives to the handler (a copy, a removal or the write of the state) and
  -- after the loop (the removal of a temporary file and the write of the state).
  pub commit_all_or_none-raised :
      (e : Error)
      → (commit_all_or_none at_root fault accepts items s).0 ≡ raised e
      → is_late e ≡ false
      → SameFiles s.files (commit_all_or_none at_root fault accepts items s).1
  unfolding commit_all_or_none
  commit_all_or_none-raised e h early path =
      ap (λ (f : Files). f path) (files-drop_journal at_root fault accepts _)
      ∙ Kept-raised s.files _ h early whole-Kept path

Post-same :
    {A : Type 0} (E : Machine → Type 0) (r : Outcome A) (s : Machine) → Post (λ _. E) E r s → E s
Post-same E (return a) s h = h
Post-same E (raised e) s h = h

recover_interrupted_commit-At :
    (at_root : String → String) (fault : ℕ → Phase → Bool) (accepts : Files → Bool) (files : Files)
    (items : List PlannedWrite) (plan : All (IsPlan at_root files) items) (s : Machine)
    → At at_root fault accepts files items plan s
    → ((recover_interrupted_commit at_root s).0 ≡ return tt)
      × SameFiles files (recover_interrupted_commit at_root s).1
unfolding recover_interrupted_commit restore_journal
recover_interrupted_commit-At at_root fault accepts files items plan s h =
    let good : All (IsBackedUp files s.backups) items =
      rw (fun_ext h.same_backups)
        (backed-IsBackedUp at_root fault accepts files items items (λ path e. e) plan) in
    let restored = λ (path : String).
      restore_manifest_lem at_root fault accepts files s.backups s.files items plan good path in
    rw (h.is_committing, h.same_manifest, restore_journal, (restored "").0)
      (
        refl,
        λ path.
            rw h.same_manifest ((restored path).1 ∙ ground (arith, h.outside path, h.within path)),
      )

-- A crash: `fault` stops the commit loop at any point, and no handler runs. Recovering from the
-- journal that it leaves returns, and gives every file of the project back.
pub recover_interrupted_commit-commit_all :
    (at_root : String → String) (fault : ℕ → Phase → Bool) (accepts : Files → Bool)
    (items : List PlannedWrite) (s prepared : Machine)
    → All (IsPlan at_root s.files) items
    → prepare at_root fault accepts items (open_journal s) ≡ (return tt, prepared)
    → let crashed = (commit_all at_root fault accepts items prepared).1 in
      ((recover_interrupted_commit at_root crashed).0 ≡ return tt)
      × SameFiles s.files (recover_interrupted_commit at_root crashed).1
recover_interrupted_commit-commit_all at_root fault accepts items s prepared plan h =
    let ready : Prepared at_root fault accepts s.files items prepared = rw h at (
      (prepare_lem at_root fault accepts s.files items).at (open_journal s)
        (open_journal-Snapshot at_root fault accepts items s plan)) in
    recover_interrupted_commit-At at_root fault accepts s.files items plan
      (commit_all at_root fault accepts items prepared).1
      (Post-same (At at_root fault accepts s.files items plan)
        (commit_all at_root fault accepts items prepared).0
        (commit_all at_root fault accepts items prepared).1
        ((commit_all-At at_root fault accepts s.files items plan).at prepared
          (Ready-Loop at_root fault accepts s.files items plan prepared ready)))
