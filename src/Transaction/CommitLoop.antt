-- ===== src/Transaction/CommitLoop.antt =====
-- A proof rule for the commit loop, and the two invariants that it keeps.
use adr_architecture_kit.Base.{
  ℕ, ◌+◌, String, ◌≡◌, none, some, List, [], ◌∷◌, ◌++◌, Bool, true, false, ◌||◌, arith, ◌==◌,
  Bool-cases, Option-cases, inl, inr,
}
use adr_architecture_kit.Transaction.State.{
  Bytes, Files, write, PlannedWrite, is_create, Phase, during_commit, after_partial_commit,
  mkstemp_io, temp_io, replace_io, ManifestEntry, Machine, committing,
}
use adr_architecture_kit.Transaction.Triples.{Triple, Triple-bind, Triple-seq, Triple-modify}
use adr_architecture_kit.Transaction.{read_staged, inject, fill, moved, commit_one, commit_all}

-- The counter of the fault injector and the temporary files do not matter.
abbrev pub IsStable : (Machine → Type 0) → Type 0
IsStable P =
    (s : Machine) (calls : ℕ) (temps : List Bytes)
    → P s
    → P (record s { calls = calls; temps = temps })

abbrev pub replacing : PlannedWrite → Bytes → Machine → Machine
replacing item content s = record s {
  files = write s.files item.absolute_path content;
  replaced = s.replaced ++ item ∷ [];
}

module _ (at_root : String → String) (fault : ℕ → Phase → Bool) (accepts : Files → Bool) where
  inject-Stable :
      {P E : Machine → Type 0} (phase : Phase)
      → IsStable P
      → ((s : Machine) → P s → E s)
      → Triple P (inject at_root fault accepts phase) (λ _. P) E
  unfolding inject
  inject-Stable phase stable ends = record {
    at = λ s h. elim (Bool-cases (fault s.calls phase)) [
      | inl e ↦ rw e (ends _ (stable s (s.calls + 1) s.temps h))
      | inr e ↦ rw e (stable s (s.calls + 1) s.temps h)
    ];
  }

  read_staged-Stable :
      {P E : Machine → Type 0} (path : String)
      → ((s : Machine) → P s → E s)
      → Triple P (read_staged path) (λ content s. P s × (s.staging path ≡ some content)) E
  unfolding read_staged
  read_staged-Stable path ends = record {
    at = λ s h. elim (Option-cases (s.staging path)) [
      | inl e ↦ rw (e, read_staged) (ends s h)
      | inr (content, e) ↦ rw (e, read_staged) (h, e)
    ];
  }

  module _ {P Q E : Machine → Type 0} (item : PlannedWrite) (stable : IsStable P)
      (after_stable : IsStable Q) (ends : (s : Machine) → P s → E s)
      (after_ends : (s : Machine) → Q s → E s)
      (replace : (s : Machine) (content : Bytes)
        → P s
        → s.staging item.relative_path ≡ some content
        → Q (replacing item content s)) where
    abbrev pub Holding : Bytes → Machine → Type 0
    Holding content s = P s × (s.staging item.relative_path ≡ some content)

    pub commit_one_rule : Triple P (commit_one at_root fault accepts item) (λ _. Q) E
    unfolding commit_one
    commit_one_rule =
        Triple-seq _ _ (inject-Stable (during_commit item.relative_path) stable ends) (
          Triple-seq _ _ (inject-Stable (mkstemp_io item.relative_path) stable ends) (
            Triple-seq _ _ (Triple-modify _ (λ s h. stable s s.calls ([] ∷ s.temps) h)) (
              Triple-bind _ _ (read_staged-Stable item.relative_path ends) λ content.
                Triple-seq {Q = Holding content} _ _
                  (inject-Stable (temp_io item.relative_path)
                    (λ s calls temps h. (stable s calls temps h.0, h.1)) (λ s h. ends s h.0))
                  (Triple-seq {Q = Holding content} _ _
                    (Triple-modify _ (λ s h. (stable s s.calls (fill content s.temps) h.0, h.1)))
                    (Triple-seq {Q = Holding content} _ _
                      (inject-Stable (replace_io item.relative_path)
                        (λ s calls temps h. (stable s calls temps h.0, h.1)) (λ s h. ends s h.0))
                      (Triple-seq _ _
                        (Triple-modify _ (λ s h.
                          after_stable (replacing item content s) s.calls (moved s.temps)
                            (replace s content h.0 h.1)))
                        (inject-Stable after_partial_commit after_stable after_ends)))))))

-- Whether one of the items replaces the file.
abbrev pub touched : String → List PlannedWrite → Bool
touched path [] = false
touched path (item ∷ items) = (item.absolute_path == path) || touched path items

pub touched-snoc :
    (path : String) (items : List PlannedWrite) (item : PlannedWrite)
    → touched path (items ++ item ∷ []) ≡ touched path items || (item.absolute_path == path)
touched-snoc path [] item = ground arith
touched-snoc path (first ∷ items) item = ground (arith, touched-snoc path items item)

abbrev pub All : (PlannedWrite → Type 0) → List PlannedWrite → Type 0
All P [] = Unit
All P (item ∷ items) = P item × All P items

pub All-snoc :
    (P : PlannedWrite → Type 0) (items : List PlannedWrite) (item : PlannedWrite)
    → All P items
    → P item
    → All P (items ++ item ∷ [])
All-snoc P [] item h p = (p, tt)
All-snoc P (first ∷ items) item h p = (h.0, All-snoc P items item h.1 p)

-- The backup is a copy of the target, and a target without a file is to be created.
abbrev pub IsBackedUp : (files backups : Files) → PlannedWrite → Type 0
IsBackedUp files backups item =
    (backups item.relative_path ≡ files item.absolute_path)
    × (files item.absolute_path ≡ none → is_create item ≡ true)

-- The invariant of the loop over the writes `planned`: files outside `replaced` are as before.
pub record Committing (files backups : Files) (manifest : List ManifestEntry)
    (planned : List PlannedWrite) (s : Machine) : Type 0 where
  pub outside : (path : String) → touched path s.replaced ≡ false → s.files path ≡ files path
  pub within : (path : String) → touched path planned ≡ false → touched path s.replaced ≡ false
  pub backed_up : All (IsBackedUp files backups) s.replaced
  pub same_backups : (path : String) → s.backups path ≡ backups path
  pub same_manifest : s.manifest ≡ manifest
  pub is_committing : s.state ≡ some committing

module _ (at_root : String → String) (fault : ℕ → Phase → Bool) (accepts : Files → Bool)
    (files backups : Files) (manifest : List ManifestEntry) (planned : List PlannedWrite) where
  abbrev pub Loop : Machine → Type 0
  Loop = Committing files backups manifest planned

  Loop-Stable : IsStable Loop
  Loop-Stable s calls temps h = record {
    outside = h.outside;
    within = h.within;
    backed_up = h.backed_up;
    same_backups = h.same_backups;
    same_manifest = h.same_manifest;
    is_committing = h.is_committing;
  }

  replacing-Loop :
      (item : PlannedWrite)
      → IsBackedUp files backups item
      → ((path : String) → touched path planned ≡ false → (item.absolute_path == path) ≡ false)
      → (s : Machine) (content : Bytes) → Loop s
      → Loop (replacing item content s)
  replacing-Loop item good planned_item s content h = record {
    outside = λ path e. ground (arith, touched-snoc path s.replaced item, h.outside path);
    within = λ path e.
        ground (arith, touched-snoc path s.replaced item, h.within path e, planned_item path e);
    backed_up = All-snoc _ s.replaced item h.backed_up good;
    same_backups = h.same_backups;
    same_manifest = h.same_manifest;
    is_committing = h.is_committing;
  }

  commit_one-Loop :
      (item : PlannedWrite)
      → IsBackedUp files backups item
      → ((path : String) → touched path planned ≡ false → (item.absolute_path == path) ≡ false)
      → Triple Loop (commit_one at_root fault accepts item) (λ _. Loop) Loop
  commit_one-Loop item good planned_item =
      commit_one_rule at_root fault accepts item Loop-Stable Loop-Stable (λ s h. h) (λ s h. h)
        (λ s content h _. replacing-Loop item good planned_item s content h)

  pub commit_all-Loop :
      (items : List PlannedWrite)
      → All (IsBackedUp files backups) items
      → ((path : String) → touched path planned ≡ false → touched path items ≡ false)
      → Triple Loop (commit_all at_root fault accepts items) (λ _. Loop) Loop
  unfolding commit_all
  commit_all-Loop [] good sub = record { at = λ s h. h }
  commit_all-Loop (item ∷ items) good sub =
      Triple-seq _ _ (commit_one-Loop item good.0 (λ path e. ground (arith, sub path e)))
        (commit_all-Loop items good.1 (λ path e. ground (arith, sub path e)))
