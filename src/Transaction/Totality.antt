-- ===== src/Transaction/Totality.antt =====
-- The commit returns when nothing faults, no target of a `create` exists and the staged
-- post-state is accepted.
use mathlib.Core.Path.{fun_ext}
use adr_architecture_kit.Base.{
  ℕ, ◌+◌, String, ◌≡◌, refl, sym, ap, ◌∙◌, none, some, List, [], ◌∷◌, Bool, true, false, ◌&&◌, ◌==◌,
  eq_iff, eq_refl, if◌then◌else◌, Bool-cases, Option-cases, inl, inr,
}
use adr_architecture_kit.Transaction.State.{
  Bytes, Files, write, copied, exists, PlannedWrite, is_create, Phase, Machine, Outcome, return,
  raised, before_staging, during_staging, after_staging, before_commit, stage_io, overlay_io,
  backup_io, during_commit, mkstemp_io, temp_io, replace_io, after_partial_commit, manifest_io,
  temp_unlink_io, state_io,
}
use adr_architecture_kit.Transaction.Triples.{Triple, Triple-bind, Triple-seq, Triple-modify, Post}
use adr_architecture_kit.Transaction.Preparation.{staged, empty}
use adr_architecture_kit.Transaction.CommitLoop.{All, IsStable}
use adr_architecture_kit.Transaction.LastWrite.{last_staged, staged_lem}
use adr_architecture_kit.Transaction.{
  governed, inject, read_staged, stage, stage_all, copy_authority, refuse_existing, overlay_one,
  overlay_all, validate, backup_one, backup_all, prepare, settle, unlink_temps, write_state, finish,
  commit_one, commit_all, commit_or_recover, open_journal, commit_all_or_none,
}

-- The overlay after the staged writes.
abbrev overlaid : List PlannedWrite → Files → Files → Files
overlaid [] staging overlay = overlay
overlaid (item ∷ items) staging overlay =
    overlaid items staging
      (λ path. if item.relative_path == path then staging item.relative_path else overlay path)

overlaid_lem :
    (items : List PlannedWrite) (staging overlay : Files) (path : String)
    → ((at : String) (content : Bytes)
        → last_staged at items ≡ some content
        → staging at ≡ some content)
    → overlaid items staging overlay path ≡ copied (last_staged path items) (overlay path)
overlaid_lem [] staging overlay path holds = refl
overlaid_lem (item ∷ items) staging overlay path holds =
    overlaid_lem items staging _ path (λ at content e. holds at content (rw e refl))
    ∙ elim (Option-cases (last_staged path items)) [
      | inr (content, e) ↦ rw e refl
      | inl e ↦ elim (Bool-cases (item.relative_path == path)) [
        | inr f ↦ rw (e, f) refl
        | inl f ↦
            rw (e, f)
              (ap staging ((eq_iff item.relative_path path).0 f)
                ∙ holds path item.content (rw (e, f) refl))
      ]
    ]

-- What `validate_staged` is shown: the governed files with the writes over them.
abbrev pub post_state : (String → String) → Files → List PlannedWrite → Files
post_state at_root files items path =
    copied (last_staged path items) (if governed path then files (at_root path) else none)

abbrev Never : Machine → Type 0
Never s = ⊥

-- Each item has its staged content.
abbrev IsStaged : Files → PlannedWrite → Type 0
IsStaged staging item = (content : Bytes) × (staging item.relative_path ≡ some content)

All-IsStaged :
    (staging : Files) (items : List PlannedWrite)
    → ((at : String) (content : Bytes)
        → last_staged at items ≡ some content
        → staging at ≡ some content)
    → All (IsStaged staging) items
All-IsStaged staging [] holds = tt
All-IsStaged staging (item ∷ items) holds = (
  elim (Option-cases (last_staged item.relative_path items)) [
    | inl e ↦ (item.content, holds item.relative_path item.content (rw (e, eq_refl) refl))
    | inr (content, e) ↦ (content, holds item.relative_path content (rw e refl))
  ],
  All-IsStaged staging items (λ at content e. holds at content (rw e refl)),
)

module _ (at_root : String → String) (fault : ℕ → Phase → Bool) (accepts : Files → Bool)
    (quiet : (n : ℕ) (phase : Phase) → fault n phase ≡ false) where
  inject-quiet :
      {P : Machine → Type 0} (phase : Phase)
      → IsStable P
      → Triple P (inject at_root fault accepts phase) (λ _. P) Never
  unfolding inject
  inject-quiet phase stable = record {
    at = λ s h. rw (quiet s.calls phase) (stable s (s.calls + 1) s.temps h);
  }

  read_staged-quiet :
      {P : Machine → Type 0} (path : String)
      → ((s : Machine) → P s → (content : Bytes) × (s.staging path ≡ some content))
      → Triple P (read_staged path) (λ content s. P s × (s.staging path ≡ some content)) Never
  unfolding read_staged
  read_staged-quiet path has = record {
    at = λ s h. let (content, e) = has s h in rw (e, read_staged) (h, e);
  }

  -- The project's files, the staging directory and the overlay before the commit loop.
  record Going (files staging overlay : Files) (s : Machine) : Type 0 where
    same_files : s.files ≡ files
    same_staging : s.staging ≡ staging
    same_overlay : s.overlay ≡ overlay

  Going-Stable : (files staging overlay : Files) → IsStable (Going files staging overlay)
  Going-Stable files staging overlay s c t h = record {
    same_files = h.same_files;
    same_staging = h.same_staging;
    same_overlay = h.same_overlay;
  }

  module _ (files : Files) where
    stage_all-quiet :
        (items : List PlannedWrite) (staging overlay : Files)
        → Triple
            (Going files staging overlay)
            (stage_all at_root fault accepts items)
            (λ _. Going files (staged items staging) overlay)
            Never
    unfolding stage_all stage
    stage_all-quiet [] staging overlay = record { at = λ s h. h }
    stage_all-quiet (item ∷ items) staging overlay =
        Triple-seq _ _
          (Triple-seq _ _ (inject-quiet during_staging (Going-Stable files staging overlay)) (
            Triple-seq _ _
              (inject-quiet (stage_io item.relative_path) (Going-Stable files staging overlay))
              (Triple-modify _ (λ s h. record {
                same_files = h.same_files;
                same_staging = rw h.same_staging refl;
                same_overlay = h.same_overlay;
              }))))
          (stage_all-quiet items (write staging item.relative_path item.content) overlay)

    refuse_existing-quiet :
        {P : Machine → Type 0} (item : PlannedWrite)
        → ((s : Machine) → P s → s.files ≡ files)
        → (is_create item && exists (files (at_root item.relative_path))) ≡ false
        → Triple P (refuse_existing at_root fault accepts item) (λ _. P) Never
    unfolding refuse_existing
    refuse_existing-quiet item same absent = record {
      at = λ s h.
          let free : (is_create item && exists (s.files (at_root item.relative_path))) ≡ false =
            rw (same s h) absent in
          rw (free, refuse_existing) h;
    }

    abbrev Reading : Files → Files → PlannedWrite → Bytes → Machine → Type 0
    Reading staging overlay item content s =
        Going files staging overlay s × (s.staging item.relative_path ≡ some content)

    overlay_all-quiet :
        (items : List PlannedWrite) (staging overlay : Files)
        → All (IsStaged staging) items
        → All
            (λ item. (is_create item && exists (files (at_root item.relative_path))) ≡ false)
            items
        → Triple
            (Going files staging overlay)
            (overlay_all at_root fault accepts items)
            (λ _. Going files staging (overlaid items staging overlay))
            Never
    unfolding overlay_all overlay_one
    overlay_all-quiet [] staging overlay has absent = record { at = λ s h. h }
    overlay_all-quiet (item ∷ items) staging overlay has absent =
        Triple-seq _ _
          (Triple-seq _ _ (refuse_existing-quiet item (λ s h. h.same_files) absent.0) (
            Triple-bind _ _
              (read_staged-quiet item.relative_path (λ s h. (has.0.0, rw h.same_staging has.0.1)))
              λ content.
                Triple-seq {Q = Reading staging overlay item content} _ _
                  (inject-quiet (overlay_io item.relative_path)
                    (λ s c t h. (Going-Stable files staging overlay s c t h.0, h.1)))
                  (Triple-modify _ (λ s h. record {
                    same_files = h.0.same_files;
                    same_staging = h.0.same_staging;
                    same_overlay = rw (h.0.same_overlay, rw h.0.same_staging at h.1) refl;
                  }))))
          (overlay_all-quiet items staging _ has.1 absent.1)

    validate-quiet :
        (staging overlay : Files)
        → accepts overlay ≡ true
        → Triple
            (Going files staging overlay)
            (validate at_root fault accepts)
            (λ _. Going files staging overlay)
            Never
    unfolding validate
    validate-quiet staging overlay fine = record {
      at = λ s h.
          let accepted : accepts s.overlay ≡ true = rw h.same_overlay fine in
          rw (accepted, validate) h;
    }

    backup_all-quiet :
        {P : Machine → Type 0} (items : List PlannedWrite)
        → IsStable P
        → ((s t : Machine) → P s → s.staging ≡ t.staging → P t)
        → Triple P (backup_all at_root fault accepts items) (λ _. P) Never
    unfolding backup_all backup_one
    backup_all-quiet [] stable staging = record { at = λ s h. h }
    backup_all-quiet (item ∷ items) stable staging =
        Triple-seq _ _
          (Triple-seq _ _ (inject-quiet (backup_io item.relative_path) stable)
            (Triple-modify _ (λ s h. staging s _ h refl)))
          (backup_all-quiet items stable staging)

  abbrev Holding : Files → Machine → Type 0
  Holding staging s = s.staging ≡ staging

  commit_one-quiet :
      (item : PlannedWrite) (staging : Files)
      → IsStaged staging item
      → Triple
          (Holding staging)
          (commit_one at_root fault accepts item)
          (λ _. Holding staging)
          Never
  unfolding commit_one
  commit_one-quiet item staging has =
      let stable : IsStable (Holding staging) = λ s c t h. h in
      Triple-seq _ _ (inject-quiet (during_commit item.relative_path) stable) (
        Triple-seq _ _ (inject-quiet (mkstemp_io item.relative_path) stable) (
          Triple-seq {Q = Holding staging} _ _ (Triple-modify _ (λ s h. h)) (
            Triple-bind _ _ (read_staged-quiet item.relative_path (λ s h. (has.0, rw h has.1)))
              λ content.
                Triple-seq {Q = Holding staging} _ _
                  (record {
                    at = λ s h. (inject-quiet (temp_io item.relative_path) stable).at s h.0;
                  })
                  (Triple-seq {Q = Holding staging} _ _ (Triple-modify _ (λ s h. h)) (
                    Triple-seq _ _ (inject-quiet (replace_io item.relative_path) stable) (
                      Triple-seq {Q = Holding staging} _ _ (Triple-modify _ (λ s h. h))
                        (inject-quiet after_partial_commit stable)))))))

  commit_all-quiet :
      (items : List PlannedWrite) (staging : Files)
      → All (IsStaged staging) items
      → Triple
          (Holding staging)
          (commit_all at_root fault accepts items)
          (λ _. Holding staging)
          Never
  unfolding commit_all
  commit_all-quiet [] staging has = record { at = λ s h. h }
  commit_all-quiet (item ∷ items) staging has =
      Triple-seq _ _ (commit_one-quiet item staging has.0) (commit_all-quiet items staging has.1)

  abbrev Anything : Machine → Type 0
  Anything s = Unit

  unlink_temps-quiet :
      (temps : List Bytes)
      → Triple Anything (unlink_temps at_root fault accepts temps) (λ _. Anything) Never
  unfolding unlink_temps
  unlink_temps-quiet [] = record { at = λ s h. tt }
  unlink_temps-quiet (temp ∷ temps) =
      Triple-seq _ _ (inject-quiet {P = Anything} temp_unlink_io (λ s c t h. tt))
        (Triple-seq {Q = Anything} _ _ (Triple-modify _ (λ s h. tt)) (unlink_temps-quiet temps))

  finish-quiet : Triple Anything (finish at_root fault accepts) (λ _. Anything) Never
  unfolding finish write_state
  finish-quiet =
      Triple-seq {Q = Anything} _ _ (record { at = λ s h. (unlink_temps-quiet s.temps).at s h })
        (Triple-seq _ _ (inject-quiet {P = Anything} state_io (λ s c t h. tt))
          (Triple-modify _ (λ s h. tt)))

  module _ (items : List PlannedWrite) (s : Machine) where
    abbrev Fits : Type 0
    Fits =
        All (λ item. (is_create item && exists (s.files (at_root item.relative_path))) ≡ false)
          items
        × (accepts (post_state at_root s.files items) ≡ true)

    abbrev Authority : Files
    Authority path = if governed path then s.files (at_root path) else none

    holds :
        (at : String) (content : Bytes)
        → last_staged at items ≡ some content
        → staged items empty at ≡ some content
    holds at content e = staged_lem items empty at ∙ rw e refl

    prepare-quiet :
        Fits
        → Triple
            (Going s.files empty empty)
            (prepare at_root fault accepts items)
            (λ _. Holding (staged items empty))
            Never
    unfolding prepare copy_authority
    prepare-quiet fits =
        let final = overlaid items (staged items empty) Authority in
        Triple-seq _ _ (inject-quiet before_staging (Going-Stable s.files empty empty)) (
          Triple-seq _ _ (stage_all-quiet s.files items empty empty) (
            Triple-seq _ _ (inject-quiet after_staging (Going-Stable s.files _ _)) (
              Triple-seq {Q = Going s.files (staged items empty) Authority} _ _
                (Triple-modify _ (λ t h. record {
                  same_files = h.same_files;
                  same_staging = h.same_staging;
                  same_overlay = rw h.same_files refl;
                }))
                (Triple-seq _ _
                  (overlay_all-quiet s.files items (staged items empty) Authority
                    (All-IsStaged _ items holds) fits.0)
                  (Triple-seq _ _
                    (validate-quiet s.files (staged items empty) final (
                      ap accepts (fun_ext (λ path. overlaid_lem items _ Authority path holds))
                      ∙ fits.1))
                    (Triple-seq {Q = Holding (staged items empty)} _ _
                      (record {
                        at = λ t h.
                            (inject-quiet {P = Holding (staged items empty)} before_commit
                                (λ u c p k. k)).at
                              t h.same_staging;
                      })
                      (Triple-seq {Q = Holding (staged items empty)} _ _
                        (backup_all-quiet s.files items (λ u c p k. k) (λ t u h e. sym e ∙ h))
                        (Triple-seq _ _
                          (inject-quiet {P = Holding (staged items empty)} manifest_io
                            (λ u c p k. k))
                          (Triple-modify _ (λ t h. h))))))))))

    settle-quiet :
        (staging : Files) (result : Outcome Unit) (after : Machine)
        → Post (λ _. Holding staging) Never result after
        → Post
            (λ _ _. Unit)
            Never
            (settle at_root fault accepts result after).0
            (settle at_root fault accepts result after).1
    unfolding settle
    settle-quiet staging (return a) after h = finish-quiet.at after tt
    settle-quiet staging (raised e) after h = absurd h

    Post-Never :
        (result : Outcome Unit) (after : Machine)
        → Post (λ _ _. Unit {0}) Never result after
        → result ≡ return tt
    Post-Never (return a) after h = refl
    Post-Never (raised e) after h = absurd h

    -- Without faults the commit returns, for writes whose `create` targets are absent and whose
    -- post-state is accepted.
    pub commit_all_or_none-returns :
        All
          (λ item. (is_create item && exists (s.files (at_root item.relative_path))) ≡ false)
          items
        → accepts (post_state at_root s.files items) ≡ true
        → (commit_all_or_none at_root fault accepts items s).0 ≡ return tt
    unfolding commit_all_or_none commit_or_recover
    commit_all_or_none-returns absent fine = Post-Never _ _ (
        (Triple-seq {Q = Holding (staged items empty)} {R = λ _ _. Unit {0}}
            (prepare at_root fault accepts items) (commit_or_recover at_root fault accepts items)
            (prepare-quiet (absent, fine))
            (record {
              at = λ t h.
                  settle-quiet _ _ _
                    ((commit_all-quiet items _ (All-IsStaged _ items holds)).at t h);
            })).at
          (open_journal s) (record { same_files = refl; same_staging = refl; same_overlay = refl }))
