-- ===== src/Notifications/Reading.antt =====
-- Following the cursors from the first page on.
use veervrat_app.Base.{
  ℕ, ◌+◌, ◌≤◌, ◌<◌, ◌≡◌, refl, ◌∙◌, ap, subst, inl, inr, Bool, true, ◌&&◌, Option, none, some, List,
  [], ◌∷◌, ◌++◌, leb, length, take, filter_by, count_of, All, IsKeyed, arith, Bool-cases,
}
use Prim.Native.Nat.{zero, suc}
use veervrat_app.Notifications.{
  NotificationRow, Cursor, NotificationPage, build_cursor, is_below, is_listed, insert_newest,
  newest_first, last_item, page_of, limit_of, list_for_user,
}
use veervrat_app.Notifications.Pages.{
  AreNewest, drop, take-drop, take-take, take-all, length-take-more, length-drop-less,
  last_item-take, filter-filter, last_item-All, last_item-drop, newest_first-AreNewest,
  filter_by-AreNewest,
}

abbrev followed :
    (Option Cursor → List NotificationRow)
    → List NotificationRow
    → Option Cursor
    → List NotificationRow
followed next items none = items
followed next items (some c) = items ++ next (some c)

abbrev answered :
    (Option Cursor → List NotificationRow) → Option NotificationPage → List NotificationRow
answered next none = []
answered next (some page) = followed next page.items page.next_cursor

-- What a client reads that asks for a page, and then for the next one while there is a cursor, in
-- so many requests at most
abbrev pub read_pages :
    (rounds user_id page_size : ℕ) → List NotificationRow → Option Cursor → List NotificationRow
read_pages zero user_id page_size rows cursor = []
read_pages (suc n) user_id page_size rows cursor =
    answered (read_pages n user_id page_size rows) (list_for_user user_id cursor page_size rows)

filter_by-All :
    (p : NotificationRow → Bool) (rows : List NotificationRow)
    → All (λ n. p n ≡ true) (filter_by p rows)
unfolding filter_by
filter_by-All p [] = tt
filter_by-All p (n ∷ rows) = elim (Bool-cases (p n)) [
  | inl t ↦ rw t (t, filter_by-All p rows)
  | inr f ↦ rw f (filter_by-All p rows)
]

module _ (k : ℕ) (all : List NotificationRow) where
  -- all fits on the page
  whole-page :
      length all ≤ suc k
      → page_of (suc k) (take (suc k + 1) all) ≡ some (record { items = all; next_cursor = none })
  whole-page h = let e = take-all (suc k + 1) all (omega (arith, h)) in rw e (ground (arith, h))

  -- more does not fit
  first-page :
      (c : NotificationRow)
      → suc k < length all
      → last_item (take (suc k) all) ≡ some c
      → page_of (suc k) (take (suc k + 1) all)
        ≡ some (record { items = take (suc k) all; next_cursor = some (build_cursor c) })
  first-page c h e =
      let more : suc k + 1 ≡ suc (suc k) = omega arith in
      rw more (ground (arith, e, length-take-more (suc k) all h, take-take (suc k) all))

is_listed-next :
    (user_id : ℕ) (cursor : Option Cursor) (c n : NotificationRow)
    → is_listed user_id cursor c ≡ true
    → is_listed user_id (some (build_cursor c)) n
      ≡ (is_listed user_id cursor n && is_below (build_cursor c) n)
is_listed-next user_id none c n h = ground (arith, h)
is_listed-next user_id (some d) c n h = ground (arith, h)

module _ (user_id page_size k : ℕ) (rows : List NotificationRow) where
  read_pages-from :
      (rounds : ℕ) (cursor : Option Cursor) (left : List NotificationRow)
      → limit_of page_size ≡ suc k
      → AreNewest (newest_first rows)
      → filter_by (is_listed user_id cursor) (newest_first rows) ≡ left
      → length left < rounds
      → read_pages rounds user_id page_size rows cursor ≡ left
  unfolding list_for_user
  read_pages-from zero cursor left l s e h = absurd (omega (arith, h))
  read_pages-from (suc n) cursor left l s e h = elim (Bool-cases (leb (length left) (suc k))) [
    | inl t ↦ rw (l, e, whole-page k left (ground (arith, t))) refl
    | inr f ↦
        let more : suc k < length left = ground (arith, f) in
        let (c, g) = last_item-take k left (omega (arith, more)) in
        let listed : All (λ n. is_listed user_id cursor n ≡ true) left =
          subst (λ xs. All (λ n. is_listed user_id cursor n ≡ true) xs) e
            (filter_by-All (is_listed user_id cursor) (newest_first rows)) in
        let sorted : AreNewest left =
          subst AreNewest e
            (filter_by-AreNewest (is_listed user_id cursor) (newest_first rows) s) in
        let rest : filter_by (is_listed user_id (some (build_cursor c))) (newest_first rows)
            ≡ drop (suc k) left =
          filter-filter (is_listed user_id cursor) (is_listed user_id (some (build_cursor c)))
            (is_below (build_cursor c)) (newest_first rows)
            (λ n.
              is_listed-next user_id cursor c n
                (last_item-All (λ n. is_listed user_id cursor n ≡ true) (suc k) left c listed g))
          ∙ ap (filter_by (is_below (build_cursor c))) e
          ∙ last_item-drop k left c sorted g in
        rw (l, e, first-page k left c more g)
          (ap (λ xs. take (suc k) left ++ xs)
              (read_pages-from n (some (build_cursor c)) (drop (suc k) left) l s rest
                (omega (arith, h, length-drop-less k left (omega (arith, more)))))
            ∙ take-drop (suc k) left)
  ]

count-insert_newest :
    (p : NotificationRow → Bool) (n : NotificationRow) (rows : List NotificationRow)
    → count_of p (insert_newest n rows) ≡ count_of p (n ∷ rows)
unfolding count_of
count-insert_newest p n [] = refl
count-insert_newest p n (m ∷ rows) = ground (arith, count-insert_newest p n rows)

count-listed :
    (q p : NotificationRow → Bool) (rows : List NotificationRow)
    → count_of p (filter_by q rows) ≡ count_of (λ n. q n && p n) rows
unfolding count_of filter_by
count-listed q p [] = refl
count-listed q p (n ∷ rows) = ground (arith, count-listed q p rows)

count-newest_first :
    (p : NotificationRow → Bool) (rows : List NotificationRow)
    → count_of p (newest_first rows) ≡ count_of p rows
unfolding count_of
count-newest_first p [] = refl
count-newest_first p (n ∷ rows) =
    count-insert_newest p n (newest_first rows) ∙ ground (arith, count-newest_first p rows)

length-filter_by :
    (p : NotificationRow → Bool) (rows : List NotificationRow)
    → length (filter_by p rows) ≤ length rows
unfolding filter_by
length-filter_by p [] = omega arith
length-filter_by p (n ∷ rows) = ground (arith, length-filter_by p rows)

length-insert_newest :
    (n : NotificationRow) (rows : List NotificationRow)
    → length (insert_newest n rows) ≡ length rows + 1
length-insert_newest n [] = omega arith
length-insert_newest n (m ∷ rows) = ground (arith, length-insert_newest n rows)

length-newest_first : (rows : List NotificationRow) → length (newest_first rows) ≡ length rows
length-newest_first [] = refl
length-newest_first (n ∷ rows) =
    ground (arith, length-insert_newest n (newest_first rows), length-newest_first rows)

positive : (n : ℕ) → 0 < n → (k : ℕ) × (n ≡ suc k)
positive zero h = absurd (omega (arith, h))
positive (suc k) h = (k, refl)

-- Following the cursors ends: with pages of at least one row and more requests than the table has
-- rows, whose ids are distinct, what was read is newest first, the smaller id later, and has every
-- unarchived notification of the user exactly as often as the table, and nothing else.
pub read_pages-AreNewest :
    (user_id page_size rounds : ℕ) (rows : List NotificationRow)
    → 0 < page_size
    → length rows < rounds
    → IsKeyed (λ (n : NotificationRow). n.id) rows
    → let seen = read_pages rounds user_id page_size rows none in
      AreNewest seen
      × ((p : NotificationRow → Bool)
          → count_of p seen ≡ count_of (λ n. is_listed user_id none n && p n) rows)
read_pages-AreNewest user_id page_size rounds rows z h d =
    let (k, l) = positive (limit_of page_size) (ground (arith, z)) in
    let s = newest_first-AreNewest rows d in
    let q = is_listed user_id none in
    let short = length-filter_by q (newest_first rows) in
    rw
      (read_pages-from user_id page_size k rows rounds none (filter_by q (newest_first rows)) l s
        refl (omega (arith, short, length-newest_first rows, h)))
      (
        filter_by-AreNewest q (newest_first rows) s,
        (λ p. count-listed q p (newest_first rows) ∙ count-newest_first (λ n. q n && p n) rows),
      )
