-- ===== src/Notifications/Pages.antt =====
-- Reading every page of the notifications.
use veervrat_app.Base.{
  ℕ, ◌≤◌, ◌<◌, ◌≡◌, ◌≢◌, refl, ◌∙◌, ap, subst, inl, inr, Bool, true, false, ◌&&◌, some, List, [],
  ◌∷◌, ◌++◌, length, take, filter_by, All, IsKeyed, arith, Bool-cases,
}
use Prim.Native.Nat.{zero, suc}
use veervrat_app.Notifications.{
  NotificationRow, build_cursor, is_below, insert_newest, newest_first, last_item,
}

-- Every row is older than those before it, or as old with a smaller id.
abbrev pub AreNewest : List NotificationRow → Type 0
AreNewest [] = Unit
AreNewest (n ∷ rows) = All (λ m. is_below (build_cursor n) m ≡ true) rows × AreNewest rows

abbrev pub drop : ℕ → List NotificationRow → List NotificationRow
drop zero rows = rows
drop (suc k) [] = []
drop (suc k) (n ∷ rows) = drop k rows

All-insert_newest :
    (P : NotificationRow → Type 0) (n : NotificationRow) (rows : List NotificationRow)
    → P n
    → All P rows
    → All P (insert_newest n rows)
All-insert_newest P n [] p a = (p, tt)
All-insert_newest P n (m ∷ rows) p (q, a) = elim (Bool-cases (is_below (build_cursor m) n)) [
  | inl t ↦ rw t (q, All-insert_newest P n rows p a)
  | inr f ↦ rw f (p, (q, a))
]

All-map :
    (P Q : NotificationRow → Type 0) (rows : List NotificationRow)
    → ((n : NotificationRow) → P n → Q n)
    → All P rows
    → All Q rows
All-map P Q [] f a = tt
All-map P Q (n ∷ rows) f (p, a) = (f n p, All-map P Q rows f a)

insert_newest-AreNewest :
    (n : NotificationRow) (rows : List NotificationRow)
    → All (λ m. m.id ≢ n.id) rows
    → AreNewest rows
    → AreNewest (insert_newest n rows)
insert_newest-AreNewest n [] d s = (tt, tt)
insert_newest-AreNewest n (m ∷ rows) d s = elim (Bool-cases (is_below (build_cursor m) n)) [
  | inl t ↦ rw t (
    All-insert_newest (λ x. is_below (build_cursor m) x ≡ true) n rows t s.0,
    insert_newest-AreNewest n rows d.1 s.1,
  )
  | inr f ↦
      let e : is_below (build_cursor n) m ≡ true = ground (arith, f, d.0) in
      rw f (
        (
          e,
          All-map (λ x. is_below (build_cursor m) x ≡ true)
              (λ x. is_below (build_cursor n) x ≡ true) rows (λ x h. ground (arith, e, h)) s.0,
        ),
        s,
      )
]

pub newest_first-AreNewest :
    (rows : List NotificationRow)
    → IsKeyed (λ (n : NotificationRow). n.id) rows
    → AreNewest (newest_first rows)
newest_first-AreNewest [] k = tt
newest_first-AreNewest (n ∷ rows) k =
    insert_newest-AreNewest n (newest_first rows) (distinct rows k.0)
      (newest_first-AreNewest rows k.1)
  where
    distinct :
        (xs : List NotificationRow)
        → All (λ (m : NotificationRow). m.id ≢ n.id) xs
        → All (λ (m : NotificationRow). m.id ≢ n.id) (newest_first xs)
    distinct [] a = tt
    distinct (x ∷ xs) a =
        All-insert_newest (λ m. m.id ≢ n.id) x (newest_first xs) a.0 (distinct xs a.1)

All-filter_by :
    (P : NotificationRow → Type 0) (p : NotificationRow → Bool) (rows : List NotificationRow)
    → All P rows
    → All P (filter_by p rows)
unfolding filter_by
All-filter_by P p [] a = tt
All-filter_by P p (n ∷ rows) a = elim (Bool-cases (p n)) [
  | inl t ↦ rw t (a.0, All-filter_by P p rows a.1)
  | inr f ↦ rw f (All-filter_by P p rows a.1)
]

pub filter_by-AreNewest :
    (p : NotificationRow → Bool) (rows : List NotificationRow)
    → AreNewest rows
    → AreNewest (filter_by p rows)
unfolding filter_by
filter_by-AreNewest p [] s = tt
filter_by-AreNewest p (n ∷ rows) s = elim (Bool-cases (p n)) [
  | inl t ↦ rw t (
    All-filter_by (λ m. is_below (build_cursor n) m ≡ true) p rows s.0,
    filter_by-AreNewest p rows s.1,
  )
  | inr f ↦ rw f (filter_by-AreNewest p rows s.1)
]

kept-All :
    (p : NotificationRow → Bool) (rows : List NotificationRow)
    → All (λ m. p m ≡ true) rows
    → filter_by p rows ≡ rows
unfolding filter_by
kept-All p [] a = refl
kept-All p (n ∷ rows) a = ground (arith, a.0, kept-All p rows a.1)

skipped :
    (p : NotificationRow → Bool) (n : NotificationRow) (rows : List NotificationRow)
    → p n ≡ false
    → filter_by p (n ∷ rows) ≡ filter_by p rows
unfolding filter_by
skipped p n rows f = rw f refl

not-below : (n : NotificationRow) → is_below (build_cursor n) n ≡ false
not-below n = ground arith

pub last_item-All :
    (P : NotificationRow → Type 0) (k : ℕ) (rows : List NotificationRow) (c : NotificationRow)
    → All P rows
    → last_item (take k rows) ≡ some c
    → P c
last_item-All P zero rows c a e = absurd (ground (arith, e))
last_item-All P (suc k) [] c a e = absurd (ground (arith, e))
last_item-All P (suc zero) (n ∷ rows) c a e = subst P (ground (arith, e)) a.0
last_item-All P (suc (suc k)) (n ∷ []) c a e = subst P (ground (arith, e)) a.0
last_item-All P (suc (suc k)) (n ∷ m ∷ rows) c a e = last_item-All P (suc k) (m ∷ rows) c a.1 e

-- after the last item of a page come the rows below it
pub last_item-drop :
    (k : ℕ) (rows : List NotificationRow) (c : NotificationRow)
    → AreNewest rows
    → last_item (take (suc k) rows) ≡ some c
    → filter_by (is_below (build_cursor c)) rows ≡ drop (suc k) rows
last_item-drop k [] c s e = absurd (ground (arith, e))
last_item-drop zero (n ∷ rows) c s e =
    let same : n ≡ c = ground (arith, e) in
    rw (← same) (
      skipped (is_below (build_cursor n)) n rows (not-below n)
      ∙ kept-All (is_below (build_cursor n)) rows s.0)
last_item-drop (suc k) (n ∷ []) c s e =
    let same : n ≡ c = ground (arith, e) in
    rw (← same) (
      skipped (is_below (build_cursor n)) n [] (not-below n)
      ∙ kept-All (is_below (build_cursor n)) [] tt)
last_item-drop (suc k) (n ∷ m ∷ rows) c s e =
    let b = last_item-All (λ x. is_below (build_cursor n) x ≡ true) (suc k) (m ∷ rows) c s.0 e in
    skipped (is_below (build_cursor c)) n (m ∷ rows) (ground (arith, b))
    ∙ last_item-drop k (m ∷ rows) c s.1 e

pub take-drop : (k : ℕ) (rows : List NotificationRow) → take k rows ++ drop k rows ≡ rows
take-drop zero rows = refl
take-drop (suc k) [] = refl
take-drop (suc k) (n ∷ rows) = ap (λ xs. n ∷ xs) (take-drop k rows)

pub take-take : (k : ℕ) (rows : List NotificationRow) → take k (take (suc k) rows) ≡ take k rows
take-take zero rows = refl
take-take (suc k) [] = refl
take-take (suc k) (n ∷ rows) = ap (λ xs. n ∷ xs) (take-take k rows)

pub take-all : (k : ℕ) (rows : List NotificationRow) → length rows ≤ k → take k rows ≡ rows
take-all zero [] h = refl
take-all zero (n ∷ rows) h = absurd (omega (arith, h))
take-all (suc k) [] h = refl
take-all (suc k) (n ∷ rows) h = ap (λ xs. n ∷ xs) (take-all k rows (omega (arith, h)))

pub length-take-more :
    (k : ℕ) (rows : List NotificationRow) → k < length rows → length (take (suc k) rows) ≡ suc k
length-take-more k [] h = absurd (omega (arith, h))
length-take-more zero (n ∷ rows) h = omega arith
length-take-more (suc k) (n ∷ rows) h = omega (arith, length-take-more k rows (omega (arith, h)))

pub length-drop-less :
    (k : ℕ) (rows : List NotificationRow)
    → k < length rows
    → length (drop (suc k) rows) < length rows
length-drop-less k [] h = absurd (omega (arith, h))
length-drop-less zero (n ∷ rows) h = omega arith
length-drop-less (suc k) (n ∷ rows) h = omega (arith, length-drop-less k rows (omega (arith, h)))

pub last_item-take :
    (k : ℕ) (rows : List NotificationRow)
    → k < length rows
    → (c : NotificationRow) × (last_item (take (suc k) rows) ≡ some c)
last_item-take k [] h = absurd (omega (arith, h))
last_item-take zero (n ∷ rows) h = (n, refl)
last_item-take (suc k) (n ∷ []) h = absurd (omega (arith, h))
last_item-take (suc k) (n ∷ m ∷ rows) h = last_item-take k (m ∷ rows) (omega (arith, h))

pub filter-filter :
    (p q r : NotificationRow → Bool) (rows : List NotificationRow)
    → ((n : NotificationRow) → q n ≡ (p n && r n))
    → filter_by q rows ≡ filter_by r (filter_by p rows)
unfolding filter_by
filter-filter p q r [] h = refl
filter-filter p q r (n ∷ rows) h = ground (arith, h n, filter-filter p q r rows h)
