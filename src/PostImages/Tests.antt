-- ===== src/PostImages/Tests.antt =====
-- src/adr_kit/promotion/candidates.py: amendments of a small document, and the theorems there.
use adr_architecture_kit.Base.{
  ◌+◌, String, some, List, [], ◌∷◌, true, false, ◌≡◌, refl, ◌⊎◌, if◌then◌else◌, ok, raise, any,
  contains, count, item_of, All,
}
use adr_architecture_kit.PostImages.{
  Child, children, scalar, invalid_child, Document, index_existing, index_children, ids_of,
  current_of, new_of, merge_children, existing_of, set_all, replace_all, preserve_all,
  build_amend_post_image,
}
use adr_architecture_kit.PostImages.Scope.{or_given, build_amend_post_image-IsScoped}
use adr_architecture_kit.PostImages.Merge.{lacks_id, Origin, merge_children-IsMerged}

abbrev child : String → String → Child
child id body = record { id = some id; body = body }

abbrev original : Document
original =
    ("title", scalar "Identity")
    ∷ ("decisions", children (child "DEC-0001" "one" ∷ child "DEC-0002" "two" ∷ []))
    ∷ ("notes", scalar "none")
    ∷ []

-- A new child that is given twice comes twice.
abbrev replacing : List Child
replacing = child "DEC-0002" "second" ∷ child "DEC-0003" "third" ∷ child "DEC-0003" "third" ∷ []

abbrev amended : Document
amended =
    ("title", scalar "Canonical identity")
    ∷ (
      "decisions",
      children (
          child "DEC-0001" "one"
          ∷ child "DEC-0002" "second"
          ∷ child "DEC-0003" "third"
          ∷ child "DEC-0003" "third"
          ∷ []),
    )
    ∷ ("notes", scalar "none")
    ∷ []

amends :
    build_amend_post_image original
      (("decisions", replacing) ∷ [])
      (("title", scalar "Canonical identity") ∷ [])
      true
    ≡ ok amended
unfolding build_amend_post_image set_all replace_all preserve_all merge_children existing_of
    index_existing index_children ids_of current_of new_of
amends = refl

build_amend_post_image-IsScoped_example :
    item_of "notes" amended
    ≡ or_given
        (item_of "notes" (("title", scalar "Canonical identity") ∷ []))
        (item_of "notes" original)
build_amend_post_image-IsScoped_example =
    build_amend_post_image-IsScoped original (("decisions", replacing) ∷ [])
      (("title", scalar "Canonical identity") ∷ []) true amended "notes" (refl, (refl, (refl, tt)))
      (refl, tt) refl amends

abbrev existing : List Child
existing = child "DEC-0001" "one" ∷ child "DEC-0002" "two" ∷ []

merge_children-IsMerged_example :
    ((any lacks_id replacing ≡ true) × (merge_children existing replacing ≡ raise invalid_child))
    ⊎ ((any lacks_id replacing ≡ false)
        × (ordered : List Child) × (merge_children existing replacing ≡ ok ordered)
        × ((x : String)
            → count x (ids_of ordered)
              ≡ count x (ids_of existing)
                + (if contains x (ids_of existing) then 0 else count x (ids_of replacing)))
        × All (Origin existing replacing) ordered)
merge_children-IsMerged_example = merge_children-IsMerged existing replacing
