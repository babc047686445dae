-- ===== src/Transaction/Handler.antt =====
-- What follows the commit loop: the handler, and the end of a commit that went through.
use adr_architecture_kit.Base.{
  ℕ, ◌+◌, String, ◌≡◌, refl, some, List, [], ◌∷◌, Bool, true, false, Bool-cases, inl, inr,
}
use adr_architecture_kit.Transaction.State.{
  Bytes, Files, PlannedWrite, Phase, restore_io, temp_unlink_io, state_io, Machine, Error, injected,
  JournalState, committed, recovered, Outcome, return, raised, Exec, and_then, ◌>>◌, modify,
}
use adr_architecture_kit.Transaction.Triples.{Post}
use adr_architecture_kit.Transaction.{
  inject, restore_one, restore, restore_each, unlink_temps, write_state, roll_back, recover, finish,
}

-- An error that the system gave to the handler, or after the commit loop.
abbrev pub is_late : Error → Bool
is_late (injected (restore_io path)) = true
is_late (injected temp_unlink_io) = true
is_late (injected state_io) = true
is_late _ = false

-- A predicate on the state after a return; an exception is a late one.
abbrev pub Settles : (Machine → Type 0) → Outcome Unit → Machine → Type 0
Settles Q (return a) s = Q s
Settles Q (raised e) s = is_late e ≡ true

pub Settles-Post :
    (Q : Machine → Type 0) (r : Outcome Unit) (s : Machine)
    → Settles Q r s
    → Post (λ _. Q) (λ _. Unit) r s
Settles-Post Q (return a) s h = h
Settles-Post Q (raised e) s h = tt

Settles-and_then :
    (P Q : Machine → Type 0) (r : Outcome Unit) (s : Machine) (k : Exec Unit)
    → Settles P r s
    → ((t : Machine) → P t → Settles Q (k t).0 (k t).1)
    → Settles Q (and_then r (λ _. k) s).0 (and_then r (λ _. k) s).1
Settles-and_then P Q (return a) s k h g = g s h
Settles-and_then P Q (raised e) s k h g = h

Settles-seq :
    (P Q : Machine → Type 0) (m k : Exec Unit) (s : Machine)
    → Settles P (m s).0 (m s).1
    → ((t : Machine) → P t → Settles Q (k t).0 (k t).1)
    → Settles Q ((m >> k) s).0 ((m >> k) s).1
Settles-seq P Q m k s h g = Settles-and_then P Q (m s).0 (m s).1 k h g

-- An exception is raised, and unless it is a late one, the files are these.
abbrev pub Recovers : Files → Outcome Unit → Machine → Type 0
Recovers files (return a) s = ⊥
Recovers files (raised e) s = is_late e ≡ false → s.files ≡ files

module _ (at_root : String → String) (fault : ℕ → Phase → Bool) (accepts : Files → Bool) where
  inject-Settles :
      (Q : Machine → Type 0) (phase : Phase) (s : Machine)
      → is_late (injected phase) ≡ true
      → Q (record s { calls = s.calls + 1 })
      → Settles Q (inject at_root fault accepts phase s).0 (inject at_root fault accepts phase s).1
  unfolding inject
  inject-Settles Q phase s late h = elim (Bool-cases (fault s.calls phase)) [
    | inl e ↦ rw (e) late
    | inr e ↦ rw (e) h
  ]

  abbrev Cleared : Files → Machine → Type 0
  Cleared files s = (s.files ≡ files) × (s.temps ≡ [])

  unlink_temps-Settles :
      (files : Files) (temps : List Bytes) (s : Machine)
      → s.files ≡ files
      → s.temps ≡ temps
      → Settles
          (Cleared files)
          (unlink_temps at_root fault accepts temps s).0
          (unlink_temps at_root fault accepts temps s).1
  unfolding unlink_temps
  unlink_temps-Settles files [] s same left = (same, left)
  unlink_temps-Settles files (temp ∷ temps) s same left =
      Settles-seq (λ t. t.files ≡ files) (Cleared files)
        (inject at_root fault accepts temp_unlink_io)
        (modify (λ t. record t { temps = temps }) >> unlink_temps at_root fault accepts temps) s
        (inject-Settles (λ t. t.files ≡ files) temp_unlink_io s refl same)
        (λ t h. unlink_temps-Settles files temps (record t { temps = temps }) h refl)

  write_state-Settles :
      (files : Files) (state : JournalState) (s : Machine)
      → Cleared files s
      → Settles
          (λ t. Cleared files t × (t.state ≡ some state))
          (write_state at_root fault accepts state s).0
          (write_state at_root fault accepts state s).1
  unfolding write_state
  write_state-Settles files state s h =
      Settles-seq (Cleared files) (λ t. Cleared files t × (t.state ≡ some state))
        (inject at_root fault accepts state_io) (modify (λ t. record t { state = some state })) s
        (inject-Settles (Cleared files) state_io s refl h) (λ t k. (k, refl))

  -- After the loop: the files stay, no temporary file is left, and the state is `committed`.
  pub finish-Settles :
      (s : Machine)
      → Settles
          (λ t. Cleared s.files t × (t.state ≡ some committed))
          (finish at_root fault accepts s).0
          (finish at_root fault accepts s).1
  unfolding finish
  finish-Settles s =
      Settles-seq (Cleared s.files) (λ t. Cleared s.files t × (t.state ≡ some committed))
        (λ t. unlink_temps at_root fault accepts t.temps t)
        (write_state at_root fault accepts committed) s
        (unlink_temps-Settles s.files s.temps s refl refl) (write_state-Settles s.files committed)

  abbrev Restored : Files → Files → Machine → Type 0
  Restored files backups s = (s.files ≡ files) × (s.backups ≡ backups)

  restore_each-Settles :
      (items : List PlannedWrite) (s : Machine)
      → Settles
          (Restored (restore items s.backups s.files) s.backups)
          (restore_each at_root fault accepts items s).0
          (restore_each at_root fault accepts items s).1
  unfolding restore_each restore
  restore_each-Settles [] s = (refl, refl)
  restore_each-Settles (item ∷ items) s =
      let before = restore items s.backups s.files in
      let after = Restored (restore_one item s.backups before) s.backups in
      Settles-seq (Restored before s.backups) after (restore_each at_root fault accepts items)
        (inject at_root fault accepts (restore_io item.relative_path)
          >> modify (λ t. record t { files = restore_one item t.backups t.files }))
        s (restore_each-Settles items s)
        λ t h.
          Settles-seq (Restored before s.backups) after
            (inject at_root fault accepts (restore_io item.relative_path))
            (modify (λ u. record u { files = restore_one item u.backups u.files })) t
            (inject-Settles (Restored before s.backups) (restore_io item.relative_path) t refl h)
            (λ u k. (rw (k.0, k.1) refl, k.1))

  roll_back-Settles :
      (s : Machine)
      → Settles
          (λ t. t.files ≡ restore s.replaced s.backups s.files)
          (roll_back at_root fault accepts s).0
          (roll_back at_root fault accepts s).1
  unfolding roll_back
  roll_back-Settles s =
      let files = restore s.replaced s.backups s.files in
      Settles-seq (Cleared files) (λ t. t.files ≡ files)
        (restore_each at_root fault accepts s.replaced
          >> (λ t. unlink_temps at_root fault accepts t.temps t))
        (write_state at_root fault accepts recovered) s
        (Settles-seq (λ t. t.files ≡ files) (Cleared files)
          (restore_each at_root fault accepts s.replaced)
          (λ t. unlink_temps at_root fault accepts t.temps t) s
          (weaken (Restored files s.backups) (λ t. t.files ≡ files)
            (restore_each at_root fault accepts s.replaced s).0
            (restore_each at_root fault accepts s.replaced s).1 (λ t h. h.0)
            (restore_each-Settles s.replaced s))
          (λ t h. unlink_temps-Settles files t.temps t h refl))
        (λ t h.
          weaken (λ u. Cleared files u × (u.state ≡ some recovered)) (λ u. u.files ≡ files)
            (write_state at_root fault accepts recovered t).0
            (write_state at_root fault accepts recovered t).1 (λ u k. k.0.0)
            (write_state-Settles files recovered t h))
    where
      weaken :
          (P Q : Machine → Type 0) (r : Outcome Unit) (s : Machine)
          → ((t : Machine) → P t → Q t)
          → Settles P r s
          → Settles Q r s
      weaken P Q (return a) s g h = g s h
      weaken P Q (raised e) s g h = h

  -- The handler raises, and unless the system refused it something, it restored the files.
  pub recover-Recovers :
      (e : Error) (s : Machine)
      → Recovers
          (restore s.replaced s.backups s.files)
          (recover at_root fault accepts e s).0
          (recover at_root fault accepts e s).1
  unfolding recover
  recover-Recovers e s = by_result _ _ (roll_back-Settles s)
    where
      by_result :
          (r : Outcome Unit) (t : Machine)
          → Settles (λ t. t.files ≡ restore s.replaced s.backups s.files) r t
          → let (r', t') = and_then r (λ _ u. (raised e, u)) t in
            Recovers (restore s.replaced s.backups s.files) r' t'
      by_result (return a) t h = λ late. h
      by_result (raised e') t h = λ late. absurd (cc (h, late))
