-- ===== src/PostImages.antt =====
-- src/adr_kit/promotion/candidates.py: the post image of an amendment. A document is the list of its
-- fields; a child has the text of its `id`, if there is one, and the rest of it.
pub mod Scope
pub mod Merge
mod Tests
use adr_architecture_kit.Base.{
  String, Option, none, some, List, [], ◌∷◌, ◌++◌, Bool, true, false, ◌==◌, ◌||◌, not,
  if◌then◌else◌, Result, ok, raise, ◌>>=◌, any, contains, item_of, put,
}

-- An existing element that is no mapping has no id either.
pub record Child : Type 0 where
  pub id : Option String
  pub body : String

pub data Field : Type 0 where
  children : List Child → Field
  scalar : String → Field

pub data PromotionError : Type 0 where
  invalid_child : PromotionError

abbrev pub Document : Type 0
Document = List (String × Field)

-- The first loop: the existing elements by their ids.
unfoldable pub index_existing : List Child → List (String × Child) → List (String × Child)
index_existing [] by_id = by_id
index_existing (item ∷ items) by_id = elim item.id [
  | none ↦ index_existing items by_id
  | some id ↦ index_existing items (put id item by_id)
]

unfoldable pub index_children :
    List Child → List (String × Child) → Result PromotionError (List (String × Child))
index_children [] by_id = ok by_id
index_children (child ∷ rest) by_id = elim child.id [
  | none ↦ raise invalid_child
  | some id ↦ index_children rest (put id child by_id)
]

-- `seen`, the ids of the existing elements.
unfoldable pub ids_of : List Child → List String
ids_of [] = []
ids_of (item ∷ items) = elim item.id [ none ↦ ids_of items | some id ↦ id ∷ ids_of items ]

-- by_id[id] for each id; each of them is a key.
unfoldable pub current_of : List String → List (String × Child) → List Child
current_of [] by_id = []
current_of (id ∷ ids) by_id = elim (item_of id by_id) [
  | none ↦ current_of ids by_id
  | some child ↦ child ∷ current_of ids by_id
]

-- The children that are new; nothing is added to `seen` here.
unfoldable pub new_of : List String → List Child → List Child
new_of seen [] = []
new_of seen (child ∷ rest) = elim child.id [
  | none ↦ new_of seen rest
  | some id ↦ if contains id seen then new_of seen rest else child ∷ new_of seen rest
]

-- The elements of a field after its children are replaced.
unfoldable pub merge_children : List Child → List Child → Result PromotionError (List Child)
unfolding index_existing index_children ids_of current_of new_of
merge_children existing replacing =
    index_children replacing (index_existing existing []) >>= λ by_id.
    ok (current_of (ids_of existing) by_id ++ new_of (ids_of existing) replacing)

-- document.get(key), if it is a list
unfoldable pub existing_of : String → Document → List Child
existing_of key document = elim (item_of key document) [
  | none ↦ []
  | some field ↦ elim field [ children items ↦ items | scalar _ ↦ [] ]
]

unfoldable pub set_all : List (String × Field) → Document → Document
set_all [] document = document
set_all (item ∷ set_fields) document = set_all set_fields (put item.0 item.1 document)

unfoldable pub replace_all : List (String × List Child) → Document → Result PromotionError Document
unfolding merge_children existing_of
replace_all [] document = ok document
replace_all (item ∷ replace_children) document =
    merge_children (existing_of item.0 document) item.1 >>= λ ordered.
    replace_all replace_children (put item.0 (children ordered) document)

abbrev pub has_key {ℓ} : {A : Type ℓ} → String → List (String × A) → Bool
has_key key items = any (λ item. item.0 == key) items

-- The loop over the fields of the original.
unfoldable pub preserve_all :
    List (String × Field) → List (String × List Child) → Document → Document → Document
preserve_all set_fields replace_children [] document = document
preserve_all set_fields replace_children (item ∷ original) document =
    preserve_all set_fields replace_children original (
      if has_key item.0 set_fields || has_key item.0 replace_children
      then document
      else put item.0 item.1 document)

-- The document that is dumped; an argument that is left out is empty.
unfoldable pub build_amend_post_image :
    Document
    → List (String × List Child)
    → List (String × Field)
    → Bool
    → Result PromotionError Document
unfolding set_all replace_all preserve_all
build_amend_post_image original replace_children set_fields preserve_unscoped =
    replace_all replace_children (set_all set_fields original) >>= λ document. ok (
      if preserve_unscoped
      then preserve_all set_fields replace_children original document
      else document)
