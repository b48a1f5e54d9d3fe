-- ===== src/Tiptap/PlainText.antt =====
-- `tiptapToPlainText` of apps/api/src/common/tiptap/sanitize.ts: the text of a document for search.
use veervrat_app.Base.{
  ℕ, ◌≡◌, ◌≢◌, refl, inl, inr, Bool, true, false, ◌&&◌, ◌||◌, not, Option, some, List, [], ◌∷◌,
  ◌++◌, ◌==◌, leb, if◌then◌else◌, arith, Bool-cases, All,
}
use veervrat_app.Model.{codes, text_eq, Text}
use veervrat_app.Tiptap.Values.{
  Json, Items, Fields, null, bool, num, str, arr, obj, nil, cons, end, field, lookup, as_text,
}

-- `if (n.type === 'text' && typeof n.text === 'string') parts.push(n.text)`
abbrev pub own_part : Option Text → Option Text → List Text
own_part (some type) (some t) = if text_eq type (codes "text") then t ∷ [] else []
own_part _ _ = []

-- `walk`, with the texts that it pushes, in order
unfoldable mutual
  pub walk : Json → List Text
  walk (obj n) =
      own_part (as_text (lookup (codes "type") n)) (as_text (lookup (codes "text") n))
      ++ walk_content n
  walk null = []
  walk (bool b) = []
  walk (num n) = []
  walk (str t) = []
  walk (arr items) = []

  pub walk_content : Fields → List Text
  walk_content end = []
  walk_content (field k v n) =
      let here = walk_list v in
      let later = walk_content n in if text_eq k (codes "content") then here else later

  pub walk_list : Json → List Text
  walk_list (arr items) = walk_items items
  walk_list null = []
  walk_list (bool b) = []
  walk_list (num n) = []
  walk_list (str t) = []
  walk_list (obj n) = []

  pub walk_items : Items → List Text
  walk_items nil = []
  walk_items (cons j items) = walk j ++ walk_items items

-- `\s` of a regular expression
unfoldable pub is_space : ℕ → Bool
is_space c =
    leb 9 c && leb c 13
    || c == 32
    || c == 160
    || c == 5760
    || leb 8192 c && leb c 8202
    || c == 8232
    || c == 8233
    || c == 8239
    || c == 8287
    || c == 12288
    || c == 65279

-- `parts.join(' ')`
unfoldable pub join : List Text → Text
join [] = []
join (w ∷ []) = w
join (w ∷ v ∷ ws) = w ++ 32 ∷ join (v ∷ ws)

-- `s.replace(/\s+/g, ' ')`, with whether the run of whitespace was already replaced
unfoldable pub collapse : Bool → Text → Text
collapse replaced [] = []
collapse replaced (c ∷ t) =
    let in_run = collapse true t in
    let in_word = collapse false t in
    if is_space c then if replaced then in_run else 32 ∷ in_run else c ∷ in_word

-- the two sides of `s.trim()`
unfoldable pub trim_start : Text → Text
trim_start [] = []
trim_start (c ∷ t) = if is_space c then trim_start t else c ∷ t

abbrev is_empty : Text → Bool
is_empty [] = true
is_empty (c ∷ t) = false

unfoldable pub trim_end : Text → Text
trim_end [] = []
trim_end (c ∷ t) = let rest = trim_end t in if is_space c && is_empty rest then [] else c ∷ rest

unfoldable pub normalize : Text → Text
normalize t = trim_end (trim_start (collapse false t))

unfoldable pub tiptap_to_plain_text : Json → Text
tiptap_to_plain_text d = normalize (join (walk d))

-- The words of a text: its longest runs without whitespace, in order.
abbrev pub prepend : ℕ → List Text → List Text
prepend c [] = (c ∷ []) ∷ []
prepend c (w ∷ ws) = (c ∷ w) ∷ ws

abbrev pub starts_word : Text → Bool
starts_word [] = false
starts_word (c ∷ t) = not (is_space c)

unfoldable pub words : Text → List Text
words [] = []
words (c ∷ t) =
    let rest = words t in
    if is_space c then rest else if starts_word t then prepend c rest else (c ∷ []) ∷ rest

-- what follows a letter in the normalized text
abbrev after : Text → Text
after [] = []
after (c ∷ t) =
    if is_space c
    then elim (words t) [ [] ↦ [] | w ∷ ws ↦ 32 ∷ join (w ∷ ws) ]
    else join (words (c ∷ t))

join-prepend : (c : ℕ) (w : Text) (ws : List Text) → join (prepend c (w ∷ ws)) ≡ c ∷ join (w ∷ ws)
unfolding join
join-prepend c w [] = refl
join-prepend c w (v ∷ ws) = refl

join-word : (w v : Text) (ws : List Text) → join (w ∷ v ∷ ws) ≡ w ++ 32 ∷ join (v ∷ ws)
unfolding join
join-word w v ws = refl

pub words-starts :
    (c : ℕ) (t : Text)
    → is_space c ≡ false
    → (w : Text) × ((ws : List Text) × (words (c ∷ t) ≡ (c ∷ w) ∷ ws))
unfolding words
words-starts c t h = elim (Bool-cases (starts_word t)) [
  | inr e ↦ ([], (words t, ground (arith, h, e)))
  | inl e ↦ starts (words t) (ground (arith, h, e))
]
  where
    starts :
        (ws : List Text)
        → words (c ∷ t) ≡ prepend c ws
        → (w : Text) × ((vs : List Text) × (words (c ∷ t) ≡ (c ∷ w) ∷ vs))
    starts [] e = ([], ([], e))
    starts (w ∷ ws) e = (w, (ws, e))

-- A letter begins the normalized text, and what follows it follows.
join-words_letter : (c : ℕ) (t : Text) → is_space c ≡ false → join (words (c ∷ t)) ≡ c ∷ after t
unfolding words join
join-words_letter c [] h = ground (arith, h)
join-words_letter c (d ∷ t) h = elim (Bool-cases (is_space d)) [
  | inl e ↦ spaced (words t) refl e
  | inr e ↦
      let (w, (ws, f)) = words-starts d t e in ground (arith, h, e, f, join-prepend c (d ∷ w) ws)
]
  where
    spaced :
        (ws : List Text)
        → words t ≡ ws
        → is_space d ≡ true
        → join (words (c ∷ d ∷ t)) ≡ c ∷ after (d ∷ t)
    spaced [] f e = ground (arith, h, f, e)
    spaced (w ∷ ws) f e = ground (arith, h, f, e)

-- The join of some words is empty only if there are none.
join-words_nil : (t : Text) → is_empty (join (words t)) ≡ true → words t ≡ []
unfolding words
join-words_nil [] h = refl
join-words_nil (c ∷ t) h = elim (Bool-cases (is_space c)) [
  | inl e ↦ ground (arith, e, join-words_nil t)
  | inr e ↦ absurd (ground (arith, join-words_letter c t e))
]

pub space_is_space : is_space 32 ≡ true
unfolding is_space
space_is_space = refl

-- A run of whitespace is dropped at the end, and one space before another word.
trim_end-collapse_space :
    (c : ℕ) (t : Text) (ws : List Text)
    → is_space c ≡ true
    → words t ≡ ws
    → trim_end (collapse true t) ≡ join (words t)
    → trim_end (collapse false (c ∷ t)) ≡ after (c ∷ t)
unfolding trim_end collapse join
trim_end-collapse_space c t [] e f r = ground (arith, e, f, r, space_is_space)
trim_end-collapse_space c t (w ∷ ws) e f r =
    ground (arith, e, f, r, space_is_space, join-words_nil t)

mutual
  unfolding trim_end collapse words join

  trim_end-collapse_run : (t : Text) → trim_end (collapse true t) ≡ join (words t)
  trim_end-collapse_run [] = ground arith
  trim_end-collapse_run (c ∷ t) = elim (Bool-cases (is_space c)) [
    | inl e ↦ ground (arith, e, trim_end-collapse_run t)
    | inr e ↦ ground (arith, e, trim_end-collapse_word t, join-words_letter c t e)
  ]

  trim_end-collapse_word : (t : Text) → trim_end (collapse false t) ≡ after t
  trim_end-collapse_word [] = refl
  trim_end-collapse_word (c ∷ t) = elim (Bool-cases (is_space c)) [
    | inl e ↦ trim_end-collapse_space c t (words t) e refl (trim_end-collapse_run t)
    | inr e ↦ ground (arith, e, trim_end-collapse_word t, join-words_letter c t e)
  ]

trim_start-collapse :
    (replaced : Bool) (t : Text) → trim_start (collapse replaced t) ≡ collapse true t
unfolding trim_start collapse
trim_start-collapse replaced [] = refl
trim_start-collapse true (c ∷ t) = ground (arith, trim_start-collapse true t)
trim_start-collapse false (c ∷ t) = ground (arith, space_is_space, trim_start-collapse true t)

-- A word is not empty and has no whitespace in it.
abbrev pub IsWord : Text → Type 0
IsWord w = (w ≢ []) × All (λ c. is_space c ≡ false) w

prepend-IsWord :
    (c : ℕ) (ws : List Text) → is_space c ≡ false → All IsWord ws → All IsWord (prepend c ws)
prepend-IsWord c [] h k = ((λ e. ground arith, (h, tt)), tt)
prepend-IsWord c (w ∷ ws) h k = ((λ e. ground arith, (h, k.0.1)), k.1)

pub words-IsWord : (t : Text) → All IsWord (words t)
unfolding words
words-IsWord [] = tt
words-IsWord (c ∷ t) = elim (Bool-cases (is_space c)) [
  | inl e ↦ rw e (words-IsWord t)
  | inr e ↦ elim (Bool-cases (starts_word t)) [
    | inl s ↦ rw (e, s) (prepend-IsWord c (words t) e (words-IsWord t))
    | inr s ↦ rw (e, s) ((λ e. ground arith, (e, tt)), words-IsWord t)
  ]
]

pub plain_text-join : (d : Json) → tiptap_to_plain_text d ≡ join (words (join (walk d)))
unfolding tiptap_to_plain_text normalize
plain_text-join d =
    rw (trim_start-collapse false (join (walk d))) (trim_end-collapse_run (join (walk d)))
