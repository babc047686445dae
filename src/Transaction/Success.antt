-- ===== src/Transaction/Success.antt =====
-- When the commit returns: what it leaves behind, and that it does return.
use adr_architecture_kit.Base.{
  ℕ, String, ◌≡◌, refl, ap, ◌∙◌, some, List, [], ◌∷◌, Bool, arith, ◌==◌, if◌then◌else◌,
}
use adr_architecture_kit.Transaction.State.{
  Files, copied, PlannedWrite, Phase, journal_io, Machine, committed, Outcome, return, raised, ◌>>◌,
}
use adr_architecture_kit.Transaction.Triples.{Triple, Triple-seq, Triple-weaken, Post}
use adr_architecture_kit.Transaction.Preparation.{Snapshot, staged, empty, prepare_lem}
use adr_architecture_kit.Transaction.CommitLoop.{All, commit_one_rule}
use adr_architecture_kit.Transaction.LastWrite.{
  last_written, IsRooted, staged_lem, landed, landed_lem,
}
use adr_architecture_kit.Transaction.Handler.{Settles, finish-Settles, Recovers, recover-Recovers}
use adr_architecture_kit.Transaction.{
  prepare, settle, commit_one, commit_all, commit_or_recover, drop_journal, open_journal,
  commit_all_or_none,
}

Post-returned :
    {A : Type 0} (Q E : Machine → Type 0) {r : Outcome A} (s : Machine) {a : A}
    → r ≡ return a
    → Post (λ _. Q) E r s
    → Q s
Post-returned Q E {r = return b} s same h = h
Post-returned Q E {r = raised e} s same h = absurd (cc)

-- The project's files and the staging directory, in the commit loop.
record Landing (files staging : Files) (s : Machine) : Type 0 where
  same_files : (path : String) → s.files path ≡ files path
  same_staging : s.staging ≡ staging

module _ (at_root : String → String) (fault : ℕ → Phase → Bool) (accepts : Files → Bool)
    (staging : Files) where
  abbrev Anything : Machine → Type 0
  Anything s = Unit

  commit_one-Landing :
      (item : PlannedWrite) (files : Files)
      → Triple
          (Landing files staging)
          (commit_one at_root fault accepts item)
          (λ _.
            Landing
              (λ path.
                if item.absolute_path == path then staging item.relative_path else files path)
              staging)
          Anything
  commit_one-Landing item files =
      commit_one_rule at_root fault accepts item
        (λ s c t h. record { same_files = h.same_files; same_staging = h.same_staging })
        (λ s c t h. record { same_files = h.same_files; same_staging = h.same_staging }) (λ s h. tt)
        (λ s h. tt)
        (λ s content h e. record {
          same_files = λ path. ground (
            arith,
            h.same_files path,
            e,
            ap (λ (f : Files). f item.relative_path) h.same_staging,
          );
          same_staging = h.same_staging;
        })

  commit_all-Landing :
      (items : List PlannedWrite) (files : Files)
      → Triple
          (Landing files staging)
          (commit_all at_root fault accepts items)
          (λ _. Landing (landed items staging files) staging)
          Anything
  unfolding commit_all
  commit_all-Landing [] files = record { at = λ s h. h }
  commit_all-Landing (item ∷ items) files =
      Triple-seq _ _ (commit_one-Landing item files) (commit_all-Landing items _)

-- The state that the commit leaves when it returns.
pub record Landed (files : Files) (s : Machine) : Type 0 where
  pub same_files : (path : String) → s.files path ≡ files path
  pub is_committed : s.state ≡ some committed
  pub no_temps : s.temps ≡ []

drop_journal-Landed :
    (at_root : String → String) (fault : ℕ → Phase → Bool) (accepts : Files → Bool) (files : Files)
    (s : Machine)
    → Landed files s
    → let after = drop_journal at_root fault accepts s in
      ((path : String) → after.files path ≡ files path)
      × (after.journal_present ≡ fault after.calls journal_io)
      × (after.temps ≡ [])
unfolding drop_journal
drop_journal-Landed at_root fault accepts files s h =
    rw (h.is_committed, drop_journal) (h.same_files, refl, h.no_temps)

landed_end :
    {P Q : Machine → Type 0} (r : Outcome Unit) (s : Machine)
    → ((t : Machine) → P t → Q t)
    → Settles P r s
    → Post (λ _. Q) (λ _. Unit) r s
landed_end (return a) s g h = g s h
landed_end (raised e) s g h = tt

never_returns :
    (Q : Machine → Type 0) (files : Files) (r : Outcome Unit) (s : Machine)
    → Recovers files r s
    → Post (λ _. Q) (λ _. Unit) r s
never_returns Q files (return a) s h = absurd h
never_returns Q files (raised e) s h = tt

module _ (at_root : String → String) (fault : ℕ → Phase → Bool) (accepts : Files → Bool)
    (items : List PlannedWrite) (s : Machine) where
  abbrev Result : Files
  Result = landed items (staged items empty) s.files

  Cleared-Landed :
      (files : Files)
      → ((path : String) → files path ≡ Result path)
      → (t : Machine) → ((t.files ≡ files) × (t.temps ≡ [])) × (t.state ≡ some committed)
      → Landed Result t
  Cleared-Landed files same t h = record {
    same_files = λ path. ap (λ (f : Files). f path) h.0.0 ∙ same path;
    is_committed = h.1;
    no_temps = h.0.1;
  }

  settle-Landed :
      (result : Outcome Unit) (after : Machine)
      → Post (λ _. Landing Result (staged items empty)) (λ _. Unit) result after
      → Post
          (λ _. Landed Result)
          (λ _. Unit)
          (settle at_root fault accepts result after).0
          (settle at_root fault accepts result after).1
  unfolding settle
  settle-Landed (return a) after h =
      landed_end _ _ (Cleared-Landed after.files h.same_files)
        (finish-Settles at_root fault accepts after)
  settle-Landed (raised e) after h =
      never_returns (Landed Result) _ _ _ (recover-Recovers at_root fault accepts e after)

  whole-Landed :
      Triple
        (Snapshot s.files empty empty [])
        (prepare at_root fault accepts items >> commit_or_recover at_root fault accepts items)
        (λ _. Landed Result)
        (λ _. Unit)
  unfolding commit_or_recover
  whole-Landed =
      Triple-seq _ _
        (Triple-weaken _ _ (λ t h. tt) (prepare_lem at_root fault accepts s.files items))
        (record {
          at = λ t h. settle-Landed _ _ (
              (commit_all-Landing at_root fault accepts (staged items empty) items s.files).at t
                (record {
                  same_files = λ path. ap (λ (f : Files). f path) h.snapshot.same_files;
                  same_staging = h.snapshot.same_staging;
                }));
        })

  -- If the commit returns, a file holds the last content written to its path, and is as before
  -- where nothing was written; no temporary file is left, and the journal is there exactly if the
  -- system refused its removal.
  pub commit_all_or_none-returned :
      All (IsRooted at_root) items
      → (commit_all_or_none at_root fault accepts items s).0 ≡ return tt
      → ((path : String)
          → (commit_all_or_none at_root fault accepts items s).1.files path
            ≡ copied (last_written path items) (s.files path))
        × ((commit_all_or_none at_root fault accepts items s).1.journal_present
            ≡ fault (commit_all_or_none at_root fault accepts items s).1.calls journal_io)
        × ((commit_all_or_none at_root fault accepts items s).1.temps ≡ [])
  unfolding commit_all_or_none
  commit_all_or_none-returned rooted h =
      let whole = Post-returned _ _ _ h (
        whole-Landed.at (open_journal s) (record {
          same_files = refl;
          same_staging = refl;
          same_backups = λ path. refl;
          same_manifest = refl;
        })) in
      let dropped = drop_journal-Landed at_root fault accepts Result _ whole in
      (
        λ path.
            dropped.0 path
            ∙ landed_lem at_root items (staged items empty) s.files path rooted
                (λ at content e. staged_lem items empty at ∙ rw e refl),
        dropped.1,
        dropped.2,
      )
