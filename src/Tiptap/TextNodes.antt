-- ===== src/Tiptap/TextNodes.antt =====
-- `tiptapToPlainText` of apps/api/src/common/tiptap/sanitize.ts against a description of its own: the
-- text nodes of a document as a relation, and their words.
use veervrat_app.Base.{
  ◌≡◌, ◌≢◌, refl, sym, ◌∙◌, ap, subst, ◌⊎◌, inl, inr, true, Option, none, some, List, [], ◌∷◌, ◌++◌,
  arith, Bool-cases, Option-cases,
}
use veervrat_app.Model.{codes, text_eq, text_eq-eq, text_eq_refl, Text}
use veervrat_app.Tiptap.Values.{
  Json, Items, Fields, null, bool, num, str, arr, obj, nil, cons, end, field, lookup, as_text,
}
use veervrat_app.Tiptap.PlainText.{own_part, walk, walk_content, walk_list, walk_items, words}

-- what an object with this `type` and `text` says itself: its text, if it is a text node
abbrev pub SaysItself : (type text : Option Json) → List Text → Type 0
SaysItself type text own =
    ((t : Text) × (type ≡ some (str (codes "text"))) × (text ≡ some (str t)) × (own ≡ t ∷ []))
    ⊎ ((t : Text) → type ≡ some (str (codes "text")) → text ≢ some (str t)) × (own ≡ [])

abbrev pub IsNoObject : Json → Type 0
IsNoObject j = (n : Fields) → j ≢ obj n

abbrev pub IsNoArray : Option Json → Type 0
IsNoArray c = (items : Items) → c ≢ some (arr items)

-- The texts of a value, in order: of an object its own and then those of the array `content`.
mutual
  pub data TextsOf : Json → List Text → Type 0 where
    leaf : (j : Json) → IsNoObject j → TextsOf j []
    node :
        (n : Fields) (own below : List Text)
        → SaysItself (lookup (codes "type") n) (lookup (codes "text") n) own
        → TextsBelow (lookup (codes "content") n) below
        → TextsOf (obj n) (own ++ below)

  pub data TextsBelow : Option Json → List Text → Type 0 where
    no_children : (c : Option Json) → IsNoArray c → TextsBelow c []
    children :
        (items : Items) (ps : List Text) → TextsAmong items ps → TextsBelow (some (arr items)) ps

  pub data TextsAmong : Items → List Text → Type 0 where
    no_nodes : TextsAmong nil []
    nodes :
        (j : Json) (items : Items) (ps qs : List Text)
        → TextsOf j ps
        → TextsAmong items qs
        → TextsAmong (cons j items) (ps ++ qs)

as_text-str : (o : Option Json) (t : Text) → as_text o ≡ some t → o ≡ some (str t)
as_text-str none t e = absurd (ground (arith, e))
as_text-str (some null) t e = absurd (ground (arith, e))
as_text-str (some (bool b)) t e = absurd (ground (arith, e))
as_text-str (some (num n)) t e = absurd (ground (arith, e))
as_text-str (some (str s)) t e = ap (λ x. some (str x)) (ground (arith, e))
as_text-str (some (arr items)) t e = absurd (ground (arith, e))
as_text-str (some (obj n)) t e = absurd (ground (arith, e))

str-as_text : (o : Option Json) (t : Text) → o ≡ some (str t) → as_text o ≡ some t
str-as_text o t e = ap as_text e

own_part-SaysItself :
    (type text : Option Json) → SaysItself type text (own_part (as_text type) (as_text text))
own_part-SaysItself type text = elim (Option-cases (as_text type)) [
  | inl e ↦ rw e (inr ((λ t a b. ground (arith, e, str-as_text type (codes "text") a)), refl))
  | inr (k, e) ↦ elim (Option-cases (as_text text)) [
    | inl f ↦ rw (e, f) (inr ((λ t a b. ground (arith, f, str-as_text text t b)), refl))
    | inr (t, f) ↦ elim (Bool-cases (text_eq k (codes "text"))) [
      | inl same ↦
          rw (e, f, same)
            (inl (
              t,
              as_text-str type k e ∙ ap (λ x. some (str x)) (text_eq-eq k (codes "text") same),
              as_text-str text t f,
              refl,
            ))
      | inr other ↦
          rw (e, f, other)
            (inr (
              (λ s a b.
                  let g = str-as_text type (codes "text") a in
                  let h : k ≡ codes "text" = ground (arith, e, g) in
                  let r =
                    subst (λ x. text_eq x (codes "text") ≡ true) (sym h)
                      (text_eq_refl (codes "text")) in
                  absurd (ground (arith, r, other))),
              refl,
            ))
    ]
  ]
]

mutual
  unfolding walk walk_content walk_list walk_items lookup

  walk-TextsOf : (j : Json) → TextsOf j (walk j)
  walk-TextsOf (obj n) =
      node n _ _ (own_part-SaysItself (lookup (codes "type") n) (lookup (codes "text") n))
        (content-TextsBelow n)
  walk-TextsOf null = leaf null (λ n e. ground (arith, e))
  walk-TextsOf (bool b) = leaf (bool b) (λ n e. ground (arith, e))
  walk-TextsOf (num k) = leaf (num k) (λ n e. ground (arith, e))
  walk-TextsOf (str t) = leaf (str t) (λ n e. ground (arith, e))
  walk-TextsOf (arr items) = leaf (arr items) (λ n e. ground (arith, e))

  content-TextsBelow : (n : Fields) → TextsBelow (lookup (codes "content") n) (walk_content n)
  content-TextsBelow end = no_children none (λ items e. ground (arith, e))
  content-TextsBelow (field k v n) = elim (Bool-cases (text_eq k (codes "content"))) [
    | inl e ↦ rw e (list-TextsBelow v)
    | inr e ↦ rw e (content-TextsBelow n)
  ]

  list-TextsBelow : (v : Json) → TextsBelow (some v) (walk_list v)
  list-TextsBelow (arr items) = children items _ (items-TextsAmong items)
  list-TextsBelow null = no_children _ (λ items e. ground (arith, e))
  list-TextsBelow (bool b) = no_children _ (λ items e. ground (arith, e))
  list-TextsBelow (num k) = no_children _ (λ items e. ground (arith, e))
  list-TextsBelow (str t) = no_children _ (λ items e. ground (arith, e))
  list-TextsBelow (obj n) = no_children _ (λ items e. ground (arith, e))

  items-TextsAmong : (items : Items) → TextsAmong items (walk_items items)
  items-TextsAmong nil = no_nodes
  items-TextsAmong (cons j items) = nodes j items _ _ (walk-TextsOf j) (items-TextsAmong items)

-- the words of some texts, in order
abbrev pub words_of : List Text → List Text
words_of [] = []
words_of (p ∷ ps) = words p ++ words_of ps

abbrev after_each : List Text → Text
after_each [] = []
after_each (w ∷ ws) = 32 ∷ w ++ after_each ws

-- some words with one space between two of them
abbrev pub spaced : List Text → Text
spaced [] = []
spaced (w ∷ ws) = w ++ after_each ws
