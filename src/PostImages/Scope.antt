-- ===== src/PostImages/Scope.antt =====
-- src/adr_kit/promotion/candidates.py: an amendment changes what it names, and nothing else.
use adr_architecture_kit.Base.{
  String, Option, none, some, List, [], ◌∷◌, Bool, false, ◌==◌, ◌||◌, ◌≡◌, refl, sym, ap, ◌∙◌, inl,
  inr, if◌then◌else◌, ok, Returns-bind, item_of, put, item_of-put, arith, eq_iff, Bool-cases, All,
  All-map, IsDistinct,
}
use adr_architecture_kit.PostImages.{
  Child, Field, children, Document, merge_children, existing_of, set_all, replace_all, preserve_all,
  has_key, build_amend_post_image,
}

-- The first of two values that is there.
abbrev pub or_given : Option Field → Option Field → Option Field
or_given none field = field
or_given (some field) other = some field

absent {ℓ} :
    {A : Type ℓ} (key : String) (items : List (String × A))
    → has_key key items ≡ false
    → item_of key items ≡ none
absent key [] h = refl
absent key (item ∷ items) h = ground (arith, absent key items)

set_all-or_given :
    (key : String) (set_fields : List (String × Field)) (document : Document)
    → IsDistinct (λ item. item.0) set_fields
    → item_of key (set_all set_fields document)
      ≡ or_given (item_of key set_fields) (item_of key document)
unfolding set_all
set_all-or_given key [] document d = refl
set_all-or_given key (item ∷ set_fields) document d =
    set_all-or_given key set_fields (put item.0 item.1 document) d.1
    ∙ ap (or_given (item_of key set_fields)) (item_of-put item.0 key item.1 document)
    ∙ elim (Bool-cases (item.0 == key)) [
      | inl e ↦
          let gone =
            absent key set_fields
              (ap (λ k. has_key k set_fields) (sym ((eq_iff item.0 key).0 e)) ∙ d.0) in
          rw (e, gone) refl
      | inr e ↦ rw (e) refl
    ]

replace_all-unscoped :
    (key : String) (replace_children : List (String × List Child)) (document result : Document)
    → has_key key replace_children ≡ false
    → replace_all replace_children document ≡ ok result
    → item_of key result ≡ item_of key document
unfolding replace_all
replace_all-unscoped key [] document result h e =
    let same : document ≡ result = cc (e) in ap (item_of key) (sym same)
replace_all-unscoped key (item ∷ replace_children) document result h e =
    let other : (item.0 == key) ≡ false = ground arith in
    let (ordered, merged, rest) =
      Returns-bind (merge_children (existing_of item.0 document) item.1) _ e in
    replace_all-unscoped key replace_children (put item.0 (children ordered) document) result
      (ground arith) rest
    ∙ item_of-put item.0 key (children ordered) document
    ∙ ap (λ b. if b then some (children ordered) else item_of key document) other

-- To put a value where it is changes nothing.
put-same :
    (key other : String) (field : Field) (document : Document)
    → item_of key document ≡ some field
    → item_of other (put key field document) ≡ item_of other document
put-same key other field document h =
    item_of-put key other field document ∙ elim (Bool-cases (key == other)) [
      | inl e ↦ rw (e) (sym h ∙ ap (λ k. item_of k document) ((eq_iff key other).0 e))
      | inr e ↦ rw (e) refl
    ]

module _ (set_fields : List (String × Field)) (replace_children : List (String × List Child)) where
  -- A field that is not named is as it was.
  abbrev IsAsBefore : Document → String × Field → Type 0
  IsAsBefore document item =
      has_key item.0 set_fields || has_key item.0 replace_children ≡ false
      → item_of item.0 document ≡ some item.1

  preserve_all-same :
      (rest document : Document) (key : String)
      → All (IsAsBefore document) rest
      → item_of key (preserve_all set_fields replace_children rest document) ≡ item_of key document
  unfolding preserve_all
  preserve_all-same [] document key h = refl
  preserve_all-same (item ∷ rest) document key h =
      elim (Bool-cases (has_key item.0 set_fields || has_key item.0 replace_children)) [
        | inl e ↦ rw (e) (preserve_all-same rest document key h.1)
        | inr e ↦
            let there = h.0 e in
            let document' = put item.0 item.1 document in
            rw (e) (
              preserve_all-same rest document' key (
                All-map rest
                  (λ other was free. put-same item.0 other.0 item.1 document there ∙ was free) h.1)
              ∙ put-same item.0 key item.1 document there)
      ]

apart_from :
    (key : String) (field : Field) (rest whole : Document)
    → has_key key rest ≡ false
    → All (λ item. item_of item.0 whole ≡ some item.1) rest
    → All (λ item. item_of item.0 ((key, field) ∷ whole) ≡ some item.1) rest
apart_from key field [] whole h all = tt
apart_from key field (item ∷ rest) whole h all = (
  ground (arith, eq_iff key item.0, eq_iff item.0 key),
  apart_from key field rest whole (ground arith) all.1,
)

own_fields :
    (document : Document)
    → IsDistinct (λ item. item.0) document
    → All (λ item. item_of item.0 document ≡ some item.1) document
own_fields [] d = tt
own_fields (item ∷ document) d = (
  ground (arith, eq_iff item.0 item.0),
  apart_from item.0 item.1 document document d.0 (own_fields document d.1),
)

-- If the post image is built, of a document and fields without a key twice, then each field whose
-- children are not replaced has the value that is set for it, or else the one it had, whether or
-- not the unscoped fields are to be preserved.
pub build_amend_post_image-IsScoped :
    (original : Document) (replace_children : List (String × List Child))
    (set_fields : List (String × Field)) (preserve_unscoped : Bool) (result : Document)
    (key : String)
    → IsDistinct (λ item. item.0) original
    → IsDistinct (λ item. item.0) set_fields
    → has_key key replace_children ≡ false
    → build_amend_post_image original replace_children set_fields preserve_unscoped ≡ ok result
    → item_of key result ≡ or_given (item_of key set_fields) (item_of key original)
unfolding build_amend_post_image
build_amend_post_image-IsScoped original replace_children set_fields preserve_unscoped result key d
      s h e =
    let (document, replaced, returned) =
      Returns-bind (replace_all replace_children (set_all set_fields original)) _ e in
    let found = λ (k : String) (free : has_key k replace_children ≡ false).
      replace_all-unscoped k replace_children (set_all set_fields original) document free replaced
      ∙ set_all-or_given k set_fields original s in
    let last : item_of key document ≡ or_given (item_of key set_fields) (item_of key original) =
      found key h in
    let before : All (IsAsBefore set_fields replace_children document) original =
      All-map original
        (λ item own free.
          found item.0 (ground arith) ∙ rw (absent item.0 set_fields (ground arith)) own)
        (own_fields original d) in
    elim (Bool-cases preserve_unscoped) [
      | inl p ↦
          let same : preserve_all set_fields replace_children original document ≡ result = cc (
            ap
                (λ b.
                  if b
                  then preserve_all set_fields replace_children original document
                  else document)
                (sym p),
            returned,
          ) in
          ap (item_of key) (sym same)
          ∙ preserve_all-same set_fields replace_children original document key before
          ∙ last
      | inr p ↦
          let same : document ≡ result = cc (
            ap
                (λ b.
                  if b
                  then preserve_all set_fields replace_children original document
                  else document)
                (sym p),
            returned,
          ) in
          ap (item_of key) (sym same) ∙ last
    ]
