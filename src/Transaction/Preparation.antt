-- ===== src/Transaction/Preparation.antt =====
-- Up to the commit loop no project file changes, and every target has its backup.
use adr_architecture_kit.Base.{
  String, ◌≡◌, refl, none, some, List, [], ◌∷◌, ◌++◌, Bool, false, ◌||◌, inl, inr, arith, ◌==◌,
  eq_iff, if◌then◌else◌, ℕ, Bool-cases, Option-cases, ◌&&◌, ◌∙◌, ◌⊎◌,
}
use mathlib.Core.List.{append-nil, append_assoc}
use adr_architecture_kit.Transaction.State.{
  Files, write, copied, PlannedWrite, Phase, ManifestEntry, Machine, committing, is_create, exists,
  overlay_io, during_staging, stage_io, backup_io, manifest_io, before_staging, after_staging,
  before_commit, modify,
}
use adr_architecture_kit.Transaction.Triples.{Triple, Triple-bind, Triple-seq, Triple-modify}
use adr_architecture_kit.Transaction.{
  manifest_entry, read_staged, inject, stage, stage_all, copy_authority, refuse_existing,
  overlay_one, overlay_all, validate, backup_one, backup_all, prepare,
}

abbrev pub covers : String → List PlannedWrite → Bool
covers path [] = false
covers path (item ∷ items) = (item.relative_path == path) || covers path items

-- What the staging directory holds after the writes: the last one of a path counts.
abbrev pub staged : List PlannedWrite → Files → Files
staged [] files = files
staged (item ∷ items) files = staged items (write files item.relative_path item.content)

pub record Snapshot (files staging backups : Files) (manifest : List ManifestEntry) (s : Machine)
    : Type 0 where
  pub same_files : s.files ≡ files
  pub same_staging : s.staging ≡ staging
  pub same_backups : (path : String) → s.backups path ≡ backups path
  pub same_manifest : s.manifest ≡ manifest

module _ (at_root : String → String) (fault : ℕ → Phase → Bool) (accepts : Files → Bool)
    (files : Files) where
  abbrev Untouched : Machine → Type 0
  Untouched s = s.files ≡ files

  module _ (staging backups : Files) (manifest : List ManifestEntry) where
    abbrev At : Machine → Type 0
    At = Snapshot files staging backups manifest

    inject-At : (phase : Phase) → Triple At (inject at_root fault accepts phase) (λ _. At) Untouched
    unfolding inject
    inject-At phase = record {
      at = λ s h. elim (Bool-cases (fault s.calls phase)) [
        | inl e ↦ rw e h.same_files
        | inr e ↦ rw e (record {
          same_files = h.same_files;
          same_staging = h.same_staging;
          same_backups = h.same_backups;
          same_manifest = h.same_manifest;
        })
      ];
    }

    read_staged-At : (path : String) → Triple At (read_staged path) (λ _. At) Untouched
    unfolding read_staged
    read_staged-At path = record {
      at = λ s h. elim (Option-cases (s.staging path)) [
        | inl e ↦ rw (e, read_staged) h.same_files
        | inr (content, e) ↦ rw (e, read_staged) h
      ];
    }

    refuse_existing-At :
        (item : PlannedWrite)
        → Triple At (refuse_existing at_root fault accepts item) (λ _. At) Untouched
    unfolding refuse_existing
    refuse_existing-At item = record {
      at = λ s h.
          elim (Bool-cases (is_create item && exists (s.files (at_root item.relative_path)))) [
            | inl e ↦ rw e h.same_files
            | inr e ↦ rw e h
          ];
    }

    validate-At : Triple At (validate at_root fault accepts) (λ _. At) Untouched
    unfolding validate
    validate-At = record {
      at = λ s h. elim (Bool-cases (accepts s.overlay)) [
        | inl e ↦ rw e h
        | inr e ↦ rw e h.same_files
      ];
    }

    modify-At :
        (f : Machine → Machine)
        → ((s : Machine) → At s → At (f s))
        → Triple At (modify f) (λ _. At) Untouched
    modify-At f h = Triple-modify f h

    copy_authority-At : Triple At (copy_authority at_root fault accepts) (λ _. At) Untouched
    unfolding copy_authority
    copy_authority-At = modify-At _ (λ s h. record {
      same_files = h.same_files;
      same_staging = h.same_staging;
      same_backups = h.same_backups;
      same_manifest = h.same_manifest;
    })

    overlay_one-At :
        (item : PlannedWrite)
        → Triple At (overlay_one at_root fault accepts item) (λ _. At) Untouched
    unfolding overlay_one
    overlay_one-At item = Triple-seq _ _ (refuse_existing-At item) (
        Triple-bind _ _ (read_staged-At item.relative_path) (λ content.
          Triple-seq _ _ (inject-At (overlay_io item.relative_path)) (
            modify-At _ (λ s h. record {
              same_files = h.same_files;
              same_staging = h.same_staging;
              same_backups = h.same_backups;
              same_manifest = h.same_manifest;
            }))))

    overlay_all-At :
        (items : List PlannedWrite)
        → Triple At (overlay_all at_root fault accepts items) (λ _. At) Untouched
    unfolding overlay_all
    overlay_all-At [] = record { at = λ s h. h }
    overlay_all-At (item ∷ items) = Triple-seq _ _ (overlay_one-At item) (overlay_all-At items)

  module _ (backups : Files) (manifest : List ManifestEntry) where
    stage_all-At :
        (items : List PlannedWrite) (staging : Files)
        → Triple
            (At staging backups manifest)
            (stage_all at_root fault accepts items)
            (λ _. At (staged items staging) backups manifest)
            Untouched
    unfolding stage_all stage
    stage_all-At [] staging = record { at = λ s h. h }
    stage_all-At (item ∷ items) staging =
        Triple-seq _ _
          (Triple-seq _ _ (inject-At staging backups manifest during_staging) (
            Triple-seq _ _ (inject-At staging backups manifest (stage_io item.relative_path)) (
              Triple-modify _ (λ s h. record {
                same_files = h.same_files;
                same_staging = rw h.same_staging refl;
                same_backups = h.same_backups;
                same_manifest = h.same_manifest;
              }))))
          (stage_all-At items (write staging item.relative_path item.content))

  abbrev backup_of : PlannedWrite → Files → Files
  backup_of item backups path =
      if item.relative_path == path then files (at_root path) else backups path

  abbrev pub backed : List PlannedWrite → Files → Files
  backed [] backups = backups
  backed (item ∷ items) backups = backed items (backup_of item backups)

  abbrev pub entries : List PlannedWrite → List ManifestEntry
  entries [] = []
  entries (item ∷ items) = manifest_entry item (files (at_root item.relative_path)) ∷ entries items

  -- No stale backup: what the directory holds is a copy of the project's file.
  abbrev pub IsFresh : Files → Type 0
  IsFresh backups = (path : String) → (backups path ≡ none) ⊎ (backups path ≡ files (at_root path))

  backup_of-IsFresh :
      (item : PlannedWrite) (backups : Files) → IsFresh backups → IsFresh (backup_of item backups)
  backup_of-IsFresh item backups fresh path = elim (Bool-cases (item.relative_path == path)) [
    | inl e ↦ rw e (inr refl)
    | inr e ↦ rw e (fresh path)
  ]

  copied-backup_of :
      (item : PlannedWrite) (backups : Files) (path : String)
      → IsFresh backups
      → (if item.relative_path == path
          then copied (files (at_root item.relative_path)) (backups path)
          else backups path)
        ≡ backup_of item backups path
  copied-backup_of item backups path fresh = elim (Bool-cases (item.relative_path == path)) [
    | inr e ↦ rw e refl
    | inl e ↦
        rw (e, (eq_iff item.relative_path path).0 e)
          (elim (Option-cases (files (at_root path))) [
            | inr (content, f) ↦ rw f refl
            | inl f ↦ rw f (elim (fresh path) [ inl g ↦ g | inr g ↦ g ∙ f ])
          ])
  ]

  pub backed_lem :
      (items : List PlannedWrite) (backups : Files) (path : String)
      → backed items backups path
        ≡ (if covers path items then files (at_root path) else backups path)
  backed_lem [] backups path = refl
  backed_lem (item ∷ items) backups path =
      backed_lem items (backup_of item backups) path ∙ ground arith

  module _ (staging : Files) where
    backup_one-At :
        (item : PlannedWrite) (backups : Files) (manifest : List ManifestEntry)
        → IsFresh backups
        → Triple
            (At staging backups manifest)
            (backup_one at_root fault accepts item)
            (λ _.
              At staging
                (backup_of item backups)
                (manifest ++ manifest_entry item (files (at_root item.relative_path)) ∷ []))
            Untouched
    unfolding backup_one
    backup_one-At item backups manifest fresh =
        Triple-seq _ _ (inject-At staging backups manifest (backup_io item.relative_path)) (
          Triple-modify _ (λ s h. record {
            same_files = h.same_files;
            same_staging = h.same_staging;
            same_backups = λ path.
                rw (h.same_files, h.same_backups path) (copied-backup_of item backups path fresh);
            same_manifest = rw (h.same_manifest, h.same_files) refl;
          }))

    backup_all-At :
        (items : List PlannedWrite) (backups : Files) (manifest : List ManifestEntry)
        → IsFresh backups
        → Triple
            (At staging backups manifest)
            (backup_all at_root fault accepts items)
            (λ _. At staging (backed items backups) (manifest ++ entries items))
            Untouched
    unfolding backup_all
    backup_all-At [] backups manifest fresh = record { at = λ s h. rw append-nil h }
    backup_all-At (item ∷ items) backups manifest fresh =
        Triple-seq _ _ (backup_one-At item backups manifest fresh) (
          rw append_assoc at (
            backup_all-At items (backup_of item backups)
              (manifest ++ manifest_entry item (files (at_root item.relative_path)) ∷ [])
              (backup_of-IsFresh item backups fresh)))

abbrev pub empty : Files
empty path = none

-- The state in which the commit loop starts.
pub record Ready (files staging backups : Files) (manifest : List ManifestEntry) (s : Machine)
    : Type 0 where
  pub snapshot : Snapshot files staging backups manifest s
  pub is_committing : s.state ≡ some committing
  pub none_replaced : s.replaced ≡ []
  pub no_temps : s.temps ≡ []

module _ (at_root : String → String) (fault : ℕ → Phase → Bool) (accepts : Files → Bool)
    (files : Files) (items : List PlannedWrite) where
  -- What `prepare` leaves behind: staged contents, a backup of each target, and the manifest.
  abbrev pub Prepared : Machine → Type 0
  Prepared =
      Ready files (staged items empty) (backed at_root fault accepts files items empty)
        (entries at_root fault accepts files items)

  pub prepare_lem :
      Triple
        (Snapshot files empty empty [])
        (prepare at_root fault accepts items)
        (λ _. Prepared)
        (λ s. s.files ≡ files)
  unfolding prepare
  prepare_lem =
      Triple-seq _ _ (inject-At at_root fault accepts files empty empty [] before_staging) (
        Triple-seq _ _ (stage_all-At at_root fault accepts files empty [] items empty) (
          Triple-seq _ _ (inject-At at_root fault accepts files _ _ _ after_staging) (
            Triple-seq _ _ (copy_authority-At at_root fault accepts files _ _ _) (
              Triple-seq _ _ (overlay_all-At at_root fault accepts files _ _ _ items) (
                Triple-seq _ _ (validate-At at_root fault accepts files _ _ _) (
                  Triple-seq _ _ (inject-At at_root fault accepts files _ _ _ before_commit) (
                    Triple-seq _ _
                      (backup_all-At at_root fault accepts files _ items empty []
                        (λ path. inl refl))
                      (Triple-seq _ _ (inject-At at_root fault accepts files _ _ _ manifest_io) (
                        Triple-modify _ (λ s h. record {
                          snapshot = record {
                            same_files = h.same_files;
                            same_staging = h.same_staging;
                            same_backups = h.same_backups;
                            same_manifest = h.same_manifest;
                          };
                          is_committing = refl;
                          none_replaced = refl;
                          no_temps = refl;
                        }))))))))))
