-- ===== src/Tiptap/Kept.antt =====
-- A safe document is left as it is.
use veervrat_app.Base.{
  ℕ, zero, suc, ◌≤◌, ◌≡◌, refl, ap, some, [], ◌∷◌, some_of, length, take, arith, In, All-In,
}
use veervrat_app.Model.{codes, text_eq, Text}
use veervrat_app.Tiptap.Values.{Json, Items, nil, cons, lookup}
use veervrat_app.Tiptap.{
  includes, entity_mention_types, allowed_entity_types, typed, mention, field_unless_empty,
  mention_label_max, clean_mark, clean_marks, sanitize_node, children, sanitize_items,
  sanitize_tiptap_doc, clean, clean_mention,
}
use veervrat_app.Tiptap.Safe.{
  SafeMark, SafeMarks, bold, italic, linked, none_left, marked, SafeNode, SafeItems, words, picture,
  reference, heading, block, no_more, more, SafeDoc, In-includes, block_types,
}

clean_mark_kept : {m : Json} → SafeMark m → clean_mark m ≡ some m
unfolding clean_mark lookup text_eq includes some_of
clean_mark_kept bold = refl
clean_mark_kept italic = refl
clean_mark_kept (linked href h) = rw h refl

clean_marks_kept : {marks : Items} → SafeMarks marks → clean_marks marks ≡ marks
unfolding clean_marks
clean_marks_kept none_left = refl
clean_marks_kept (marked m marks) = rw (clean_mark_kept m, clean_marks_kept marks) refl

take_all : (n : ℕ) (t : Text) → length t ≤ n → take n t ≡ t
take_all zero [] h = refl
take_all (suc n) [] h = refl
take_all zero (c ∷ t) h = absurd (omega arith)
take_all (suc n) (c ∷ t) h = ap (λ r. c ∷ r) (take_all n t (omega arith))

mention_kept :
    (type entity_type id label : Text)
    → In entity_type allowed_entity_types
    → 1 ≤ length id
    → length id ≤ 64
    → length label ≤ 120
    → clean_mention type (some entity_type) (some id) (take mention_label_max label)
      ≡ some (mention type entity_type id label)
mention_kept type entity_type id label e l u k =
    rw (In-includes allowed_entity_types entity_type e, take_all 120 label k) (ground arith)

-- the claim about a mention
abbrev MentionKept : (entity_type id label type : Text) → Type 0
MentionKept entity_type id label type =
    let node = mention type entity_type id label in sanitize_node node ≡ some node

-- the claim about a block
abbrev BlockKept : Items → Text → Type 0
BlockKept items type =
    let node = typed type (field_unless_empty (codes "content") items) in
    sanitize_node node ≡ some node

block_kept :
    (type : Text) (items : Items)
    → In type block_types
    → sanitize_items items ≡ items
    → BlockKept items type
unfolding sanitize_node lookup text_eq includes some_of
block_kept type nil m e =
    All-In (BlockKept nil) block_types type
      (refl, (refl, (refl, (refl, (refl, (refl, (refl, tt))))))) m
block_kept type (cons j items) m e =
    All-In (BlockKept (cons j items)) block_types type
      (rw e refl, (rw e refl, (rw e refl, (rw e refl, (rw e refl, (rw e refl, (rw e refl, tt)))))))
      m

mutual
  unfolding sanitize_node lookup text_eq includes some_of

  node_kept : (j : Json) → SafeNode j → sanitize_node j ≡ some j
  node_kept j (words t nil m) = refl
  node_kept j (words t (cons mark marks) m) = rw (clean_marks_kept m) refl
  node_kept j (picture src h) = rw h refl
  node_kept j (reference type entity_type id label m e l u k) =
      All-In (MentionKept entity_type id label) entity_mention_types type
        (
          mention_kept (codes "entityAt") entity_type id label e l u k,
          (mention_kept (codes "entityHash") entity_type id label e l u k, tt),
        )
        m
  node_kept j (heading n nil h s) = ground arith
  node_kept j (heading n (cons k items) h s) = rw (items_kept (cons k items) s) (ground arith)
  node_kept j (block type items m s) = block_kept type items m (items_kept items s)

  items_kept : (items : Items) → SafeItems items → sanitize_items items ≡ items
  items_kept nil no_more = refl
  items_kept (cons j items) (more n s) = rw (node_kept j n, items_kept items s) refl

-- A safe node is left as it is.
pub sanitize_node-eq-some : (j : Json) → SafeNode j → sanitize_node j ≡ some j
sanitize_node-eq-some j n = node_kept j n

-- A safe document is left as it is.
pub sanitize_tiptap_doc_kept : (d : Json) → SafeDoc d → sanitize_tiptap_doc d ≡ clean d
unfolding sanitize_tiptap_doc children lookup text_eq
sanitize_tiptap_doc_kept d (j, (items, s, e)) = rw e (rw (items_kept (cons j items) s) refl)
