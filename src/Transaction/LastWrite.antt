-- ===== src/Transaction/LastWrite.antt =====
-- The last write of a path, which decides what the staging directory and the project hold.
use adr_architecture_kit.Base.{
  String, ◌≡◌, refl, Option, none, some, List, [], ◌∷◌, arith, ◌==◌, eq_iff, eq_refl, if◌then◌else◌,
  Option-cases, Bool-cases, inl, inr, ◌∙◌, sym,
}
use adr_architecture_kit.Transaction.State.{Bytes, Files, PlannedWrite, copied}
use adr_architecture_kit.Transaction.Preparation.{staged}
use adr_architecture_kit.Transaction.CommitLoop.{All}

-- The content of the last item that is to be written at the path, by absolute path.
abbrev pub last_written : String → List PlannedWrite → Option Bytes
last_written path [] = none
last_written path (item ∷ items) =
    copied (last_written path items)
      (if item.absolute_path == path then some item.content else none)

-- The same, by relative path.
abbrev pub last_staged : String → List PlannedWrite → Option Bytes
last_staged path [] = none
last_staged path (item ∷ items) =
    copied (last_staged path items) (if item.relative_path == path then some item.content else none)

pub copied_assoc : (a b c : Option Bytes) → copied (copied a b) c ≡ copied a (copied b c)
copied_assoc none b c = refl
copied_assoc (some x) b c = refl

pub staged_lem :
    (items : List PlannedWrite) (files : Files) (path : String)
    → staged items files path ≡ copied (last_staged path items) (files path)
staged_lem [] files path = refl
staged_lem (item ∷ items) files path =
    staged_lem items _ path
    ∙ ground (
      arith,
      copied_assoc (last_staged path items)
          (if item.relative_path == path then some item.content else none) (files path),
    )

abbrev pub IsRooted : (String → String) → PlannedWrite → Type 0
IsRooted at_root item = item.absolute_path ≡ at_root item.relative_path

copied-eq-none : (a b : Option Bytes) → copied a b ≡ none → (a ≡ none) × (b ≡ none)
copied-eq-none none b h = (refl, h)
copied-eq-none (some x) b h = absurd (cc)

last_staged-eq-none :
    (at_root : String → String) (items : List PlannedWrite) (path : String)
    → All (IsRooted at_root) items
    → last_written (at_root path) items ≡ none
    → last_staged path items ≡ none
last_staged-eq-none at_root [] path rooted h = refl
last_staged-eq-none at_root (item ∷ items) path rooted h =
    let parts = copied-eq-none (last_written (at_root path) items) _ h in
    rw (last_staged-eq-none at_root items path rooted.1 parts.0) (
      ground (
        arith,
        eq_iff item.relative_path path,
        eq_iff item.absolute_path (at_root path),
        rooted.0,
        parts.1,
      ))

-- The project's files after the commit loop, from a staging directory.
abbrev pub landed : List PlannedWrite → Files → Files → Files
landed [] staging files = files
landed (item ∷ items) staging files =
    landed items staging
      (λ path. if item.absolute_path == path then staging item.relative_path else files path)

landed_here :
    (at_root : String → String) (item : PlannedWrite) (items : List PlannedWrite)
    (staging files : Files) (path : String)
    → All (IsRooted at_root) (item ∷ items)
    → last_written path items ≡ none
    → ((at : String) (content : Bytes)
        → last_staged at (item ∷ items) ≡ some content
        → staging at ≡ some content)
    → (if item.absolute_path == path then staging item.relative_path else files path)
      ≡ copied (if item.absolute_path == path then some item.content else none) (files path)
landed_here at_root item items staging files path rooted h holds =
    elim (Bool-cases (item.absolute_path == path)) [
      | inr e ↦ rw e refl
      | inl e ↦
          let here : path ≡ at_root item.relative_path =
            sym ((eq_iff item.absolute_path path).0 e) ∙ rooted.0 in
          rw e (
            holds item.relative_path item.content (
              rw
                (
                  last_staged-eq-none at_root items item.relative_path rooted.1 (rw here at h),
                  eq_refl,
                )
                refl))
    ]

pub landed_lem :
    (at_root : String → String) (items : List PlannedWrite) (staging files : Files) (path : String)
    → All (IsRooted at_root) items
    → ((at : String) (content : Bytes)
        → last_staged at items ≡ some content
        → staging at ≡ some content)
    → landed items staging files path ≡ copied (last_written path items) (files path)
landed_lem at_root [] staging files path rooted holds = refl
landed_lem at_root (item ∷ items) staging files path rooted holds =
    landed_lem at_root items staging _ path rooted.1 (λ at content e. holds at content (rw e refl))
    ∙ elim (Option-cases (last_written path items)) [
      | inr (content, e) ↦ rw e refl
      | inl e ↦ rw e (landed_here at_root item items staging files path rooted e holds)
    ]
