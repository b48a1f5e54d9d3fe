-- ===== src/Tiptap/Safe.antt =====
-- What a cleaned node looks like, described without the code that cleans.
use veervrat_app.Base.{
  ℕ, ◌≤◌, ◌≡◌, sym, subst, ◌⊎◌, inl, inr, true, List, [], ◌∷◌, some_of, In, length, arith,
  Bool-cases,
}
use veervrat_app.Model.{codes, text_eq, text_eq-eq, text_eq_refl, Text}
use veervrat_app.Tiptap.Values.{Json, Items, nil, cons, end, field}
use veervrat_app.Tiptap.{
  includes, is_safe_url, entity_mention_types, allowed_entity_types, typed, link, text_node, image,
  mention, level_attrs, field_unless_empty, doc,
}

-- bold, italic, or a link to a safe address which opens elsewhere and hands nothing on
pub data SafeMark : Json → Type 0 where
  bold : SafeMark (typed (codes "bold") end)
  italic : SafeMark (typed (codes "italic") end)
  linked : (href : Text) → is_safe_url href ≡ true → SafeMark (link href)

pub data SafeMarks : Items → Type 0 where
  none_left : SafeMarks nil
  marked : {m : Json} {marks : Items} → SafeMark m → SafeMarks marks → SafeMarks (cons m marks)

-- the types of a node with children and no attributes
abbrev pub block_types : List Text
block_types =
    codes "doc"
    ∷ codes "paragraph"
    ∷ codes "hardBreak"
    ∷ codes "bulletList"
    ∷ codes "orderedList"
    ∷ codes "listItem"
    ∷ codes "blockquote"
    ∷ []

mutual
  pub data SafeNode : Json → Type 0 where
    words :
        (t : Text) (marks : Items)
        → SafeMarks marks
        → SafeNode (text_node t (field_unless_empty (codes "marks") marks))
    picture : (src : Text) → is_safe_url src ≡ true → SafeNode (image src)
    reference :
        (type entity_type id label : Text)
        → In type entity_mention_types
        → In entity_type allowed_entity_types
        → 1 ≤ length id
        → length id ≤ 64
        → length label ≤ 120
        → SafeNode (mention type entity_type id label)
    heading :
        (n : ℕ) (items : Items)
        → (n ≡ 2) ⊎ (n ≡ 3) ⊎ (n ≡ 4)
        → SafeItems items
        → SafeNode (
            typed
              (codes "heading")
              (field (codes "attrs") (level_attrs n) (field_unless_empty (codes "content") items)))
    block :
        (type : Text) (items : Items)
        → In type block_types
        → SafeItems items
        → SafeNode (typed type (field_unless_empty (codes "content") items))

  pub data SafeItems : Items → Type 0 where
    no_more : SafeItems nil
    more : {j : Json} {items : Items} → SafeNode j → SafeItems items → SafeItems (cons j items)

-- a document of at least one node, all of them safe
abbrev pub SafeDoc : Json → Type 0
SafeDoc d = (j : Json) × ((items : Items) × (SafeItems (cons j items)) × (d ≡ doc (cons j items)))

pub includes-In : (texts : List Text) (t : Text) → includes texts t ≡ true → In t texts
unfolding includes some_of
includes-In [] t h = cc
includes-In (s ∷ texts) t h = elim (Bool-cases (text_eq s t)) [
  | inl e ↦ inl (text_eq-eq s t e)
  | inr e ↦ inr (includes-In texts t (ground (arith, e)))
]

pub In-includes : (texts : List Text) (t : Text) → In t texts → includes texts t ≡ true
unfolding includes some_of
In-includes [] t h = absurd h
In-includes (s ∷ texts) t (inl e) =
    ground (arith, subst (λ s. text_eq s t ≡ true) (sym e) (text_eq_refl t))
In-includes (s ∷ texts) t (inr h) = ground (arith, In-includes texts t h)
