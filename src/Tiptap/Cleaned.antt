-- ===== src/Tiptap/Cleaned.antt =====
-- Whatever the input, what the sanitizer lets through is safe.
use veervrat_app.Base.{
  ◌≤◌, ◌≡◌, refl, subst, ◌⊎◌, inl, inr, Option, none, some, some_of, length, length-take-le, arith,
  Bool-cases, Option-cases, In, All, All-In,
}
use veervrat_app.Model.{codes, text_eq, Text}
use veervrat_app.Tiptap.Values.{
  Json, Items, Fields, null, bool, num, str, arr, obj, nil, cons, end, field, lookup, get?, as_text,
}
use veervrat_app.Tiptap.{
  includes, allowed_node_types, safe_url, entity_mention_types, allowed_entity_types, typed,
  text_node, image, mention, heading_level, field_unless_empty, label_of, add, sanitize_marks,
  sanitize_node, children, child_list, sanitize_items, sanitize_tiptap_doc, clean, clean_allowed,
  clean_node, clean_mention, clean_block, content_field, clean_doc_typed,
}
use veervrat_app.Tiptap.Kept.{sanitize_tiptap_doc_kept}
use veervrat_app.Tiptap.Safe.{
  SafeNode, SafeItems, words, picture, reference, heading, block, no_more, more, SafeDoc,
  includes-In, block_types,
}
use veervrat_app.Tiptap.Marks.{
  safe_url-IsSafe, kept_marks, sanitize_marks_lem, kept_marks-SafeMarks,
}

abbrev KidsSafe : Option Items → Type 0
KidsSafe none = Unit
KidsSafe (some items) = SafeItems items

abbrev kids_of : Option Items → Items
kids_of none = nil
kids_of (some items) = items

kids_of-SafeItems : (kids : Option Items) → KidsSafe kids → SafeItems (kids_of kids)
kids_of-SafeItems none k = no_more
kids_of-SafeItems (some items) k = k

content_field_lem :
    (kids : Option Items) → content_field kids ≡ field_unless_empty (codes "content") (kids_of kids)
content_field_lem none = refl
content_field_lem (some items) = refl

heading_level_range :
    (v : Option Json) → (heading_level v ≡ 2) ⊎ (heading_level v ≡ 3) ⊎ (heading_level v ≡ 4)
heading_level_range v = ground arith

length-label_of-le : (v : Option Json) → length (label_of v) ≤ 120
length-label_of-le none = omega arith
length-label_of-le (some null) = omega arith
length-label_of-le (some (bool b)) = omega arith
length-label_of-le (some (num n)) = omega arith
length-label_of-le (some (str t)) = length-take-le 120 t
length-label_of-le (some (arr items)) = omega arith
length-label_of-le (some (obj n)) = omega arith

module _ (n : Fields) (kids : Option Items) (k : KidsSafe kids) where
  -- The cleaned node of a type, by the type.
  abbrev NodeSafe : Text → Type 0
  NodeSafe type = (out : Json) → clean_allowed type n kids ≡ some out → SafeNode out

  text-SafeNode : NodeSafe (codes "text")
  unfolding text_eq includes some_of
  text-SafeNode out h = elim (Option-cases (as_text (lookup (codes "text") n))) [
    | inl e ↦ absurd (ground (arith, e))
    | inr (t, e) ↦
        let marks = lookup (codes "marks") n in
        let same : text_node t (sanitize_marks marks) ≡ out = ground (arith, e) in
        subst SafeNode same
          (rw (sanitize_marks_lem marks) (words t (kept_marks marks) (kept_marks-SafeMarks marks)))
  ]

  image-SafeNode : NodeSafe (codes "image")
  unfolding text_eq includes some_of
  image-SafeNode out h =
      elim (Option-cases (safe_url (get? (codes "src") (lookup (codes "attrs") n)))) [
        | inl e ↦ absurd (ground (arith, e))
        | inr (src, e) ↦
            let same : image src ≡ out = ground (arith, e) in
            subst SafeNode same (picture src (safe_url-IsSafe _ src e))
      ]

  mention-SafeNode :
      (type : Text) (entity_type id : Option Text) (v : Option Json) (out : Json)
      → In type entity_mention_types
      → clean_mention type entity_type id (label_of v) ≡ some out
      → SafeNode out
  mention-SafeNode type none id v out m h = absurd (ground arith)
  mention-SafeNode type (some entity_type) none v out m h = absurd (ground arith)
  mention-SafeNode type (some entity_type) (some id) v out m h =
      elim (Bool-cases (includes allowed_entity_types entity_type)) [
        | inr e ↦ absurd (ground (arith, e))
        | inl e ↦
            let same : mention type entity_type id (label_of v) ≡ out = ground (arith, e) in
            subst SafeNode same (
              reference type entity_type id (label_of v) m
                (includes-In allowed_entity_types entity_type e) (ground (arith, e))
                (ground (arith, e)) (length-label_of-le v))
      ]

  heading-SafeNode : NodeSafe (codes "heading")
  unfolding text_eq includes some_of
  heading-SafeNode out h =
      let level = get? (codes "level") (lookup (codes "attrs") n) in
      let same : clean_block (codes "heading") (lookup (codes "attrs") n) kids ≡ out = cc in
      subst SafeNode same (
        rw (content_field_lem kids) (
          heading (heading_level level) (kids_of kids) (heading_level_range level)
            (kids_of-SafeItems kids k)))

  block-SafeNode :
      (type : Text) (out : Json)
      → In type block_types
      → typed type (content_field kids) ≡ out
      → SafeNode out
  block-SafeNode type out m e =
      subst SafeNode e
        (rw (content_field_lem kids) (block type (kids_of kids) m (kids_of-SafeItems kids k)))

  allowed-SafeNode : All NodeSafe allowed_node_types
  unfolding text_eq includes some_of
  allowed-SafeNode = (
    λ out h. block-SafeNode (codes "doc") out (inl refl) (cc),
    (
      λ out h. block-SafeNode (codes "paragraph") out (inr (inl refl)) (cc),
      (
        heading-SafeNode,
        (
          text-SafeNode,
          (
            λ out h. block-SafeNode (codes "hardBreak") out (inr (inr (inl refl))) (cc),
            (
              λ out h. block-SafeNode (codes "bulletList") out (inr (inr (inr (inl refl)))) (cc),
              (
                λ out h.
                    block-SafeNode (codes "orderedList") out (inr (inr (inr (inr (inl refl)))))
                      (cc),
                (
                  λ out h.
                      block-SafeNode (codes "listItem") out (inr (inr (inr (inr (inr (inl refl))))))
                        (cc),
                  (
                    λ out h.
                        block-SafeNode (codes "blockquote") out
                          (inr (inr (inr (inr (inr (inr (inl refl))))))) (cc),
                    (
                      image-SafeNode,
                      (
                        λ out h.
                            mention-SafeNode (codes "entityAt")
                              (as_text (get? (codes "entityType") (lookup (codes "attrs") n)))
                              (as_text (get? (codes "entityId") (lookup (codes "attrs") n)))
                              (get? (codes "label") (lookup (codes "attrs") n)) out (inl refl) h,
                        (
                          λ out h.
                              mention-SafeNode (codes "entityHash")
                                (as_text (get? (codes "entityType") (lookup (codes "attrs") n)))
                                (as_text (get? (codes "entityId") (lookup (codes "attrs") n)))
                                (get? (codes "label") (lookup (codes "attrs") n)) out
                                (inr (inl refl)) h,
                          tt,
                        ),
                      ),
                    ),
                  ),
                ),
              ),
            ),
          ),
        ),
      ),
    ),
  )

  clean_node-SafeNode :
      (type : Option Text) (out : Json) → clean_node type n kids ≡ some out → SafeNode out
  clean_node-SafeNode none out h = absurd (ground arith)
  clean_node-SafeNode (some type) out h = elim (Bool-cases (includes allowed_node_types type)) [
    | inl e ↦
        All-In NodeSafe allowed_node_types type allowed-SafeNode
          (includes-In allowed_node_types type e) out (rw e at h)
    | inr e ↦ absurd (ground (arith, e))
  ]

add-SafeItems :
    (o : Option Json) (items : Items)
    → ((out : Json) → o ≡ some out → SafeNode out)
    → SafeItems items
    → SafeItems (add o items)
add-SafeItems none items h s = s
add-SafeItems (some out) items h s = more (h out refl) s

mutual
  unfolding sanitize_node

  node-SafeNode : (j out : Json) → sanitize_node j ≡ some out → SafeNode out
  node-SafeNode (obj n) out h =
      clean_node-SafeNode n (children n) (children-KidsSafe n) (as_text (lookup (codes "type") n))
        out h
  node-SafeNode null out h = absurd (ground arith)
  node-SafeNode (bool b) out h = absurd (ground arith)
  node-SafeNode (num n) out h = absurd (ground arith)
  node-SafeNode (str t) out h = absurd (ground arith)
  node-SafeNode (arr items) out h = absurd (ground arith)

  children-KidsSafe : (n : Fields) → KidsSafe (children n)
  children-KidsSafe end = tt
  children-KidsSafe (field k v n) = elim (Bool-cases (text_eq k (codes "content"))) [
    | inl e ↦ rw e (child_list-KidsSafe v)
    | inr e ↦ rw e (children-KidsSafe n)
  ]

  child_list-KidsSafe : (v : Json) → KidsSafe (child_list v)
  child_list-KidsSafe (arr items) = items-SafeItems items
  child_list-KidsSafe null = tt
  child_list-KidsSafe (bool b) = tt
  child_list-KidsSafe (num n) = tt
  child_list-KidsSafe (str t) = tt
  child_list-KidsSafe (obj n) = tt

  items-SafeItems : (items : Items) → SafeItems (sanitize_items items)
  items-SafeItems nil = no_more
  items-SafeItems (cons j items) =
      add-SafeItems (sanitize_node j) (sanitize_items items) (λ out h. node-SafeNode j out h)
        (items-SafeItems items)

clean_doc-SafeDoc :
    (type : Option Text) (kids : Option Items) (d : Json)
    → KidsSafe kids
    → clean_doc_typed type kids ≡ clean d
    → SafeDoc d
clean_doc-SafeDoc none kids d k h = absurd (ground arith)
clean_doc-SafeDoc (some type) none d k h = absurd (ground arith)
clean_doc-SafeDoc (some type) (some nil) d k h = absurd (ground arith)
clean_doc-SafeDoc (some type) (some (cons j items)) d k h = (j, (items, k, ground arith))

-- Whatever the input, a document that the sanitizer returns is safe.
pub sanitize_tiptap_doc-SafeDoc : (input d : Json) → sanitize_tiptap_doc input ≡ clean d → SafeDoc d
unfolding sanitize_tiptap_doc
sanitize_tiptap_doc-SafeDoc (obj n) d h =
    clean_doc-SafeDoc (as_text (lookup (codes "type") n)) (children n) d (children-KidsSafe n) h
sanitize_tiptap_doc-SafeDoc null d h = absurd (ground arith)
sanitize_tiptap_doc-SafeDoc (bool b) d h = absurd (ground arith)
sanitize_tiptap_doc-SafeDoc (num n) d h = absurd (ground arith)
sanitize_tiptap_doc-SafeDoc (str t) d h = absurd (ground arith)
sanitize_tiptap_doc-SafeDoc (arr items) d h = absurd (ground arith)

-- Cleaning a cleaned document changes nothing.
pub sanitize_tiptap_doc_idem :
    (input d : Json) → sanitize_tiptap_doc input ≡ clean d → sanitize_tiptap_doc d ≡ clean d
sanitize_tiptap_doc_idem input d h =
    sanitize_tiptap_doc_kept d (sanitize_tiptap_doc-SafeDoc input d h)
