-- ===== src/Base/Tables.antt =====
-- The writes of one table: the steps that a relation on rows allows.
use mathlib.Core.Path.{◌≡◌, sym, subst, ap, ◌∙◌}
use mathlib.Core.Bool.{Bool, true}
use mathlib.Core.Option.{some}
use mathlib.Core.List.{List, [], ◌∷◌}
use native.Mathlib.Omega.{arith}
use Prim.Native.Nat.{ℕ}
use mathlib.Core.Logic.{◌≢◌, ◌⊎◌, inl, inr}
use veervrat_app.Base.Tests.{◌==◌, Bool-cases}
use veervrat_app.Base.Lists.{
  All, All-In, In, find_in, update_one, update_where, delete_one, All-update_one, All-delete_one,
  All-find,
}

module _ {A : Type 0} where
  -- `Move` is what may happen to a row, `IsNew` what a new row is like.
  pub data TableStep (Move : A → A → Type 0) (IsNew : A → Type 0) (rows rows' : List A)
      : Type 0 where
    unchanged : rows' ≡ rows → TableStep Move IsNew rows rows'
    moved :
        (p : A → Bool) (row : A) (change : A → A)
        → find_in p rows ≡ some row
        → Move row (change row)
        → rows' ≡ update_one p change rows
        → TableStep Move IsNew rows rows'
    moved_all :
        (p : A → Bool) (change : A → A)
        → ((row : A) → p row ≡ true → Move row (change row))
        → rows' ≡ update_where p change rows
        → TableStep Move IsNew rows rows'
    added : (row : A) → IsNew row → rows' ≡ row ∷ rows → TableStep Move IsNew rows rows'
    removed : (p : A → Bool) → rows' ≡ delete_one p rows → TableStep Move IsNew rows rows'

  pub All-update_where :
      (P : A → Type 0) (p : A → Bool) (change : A → A)
      → ((row : A) → p row ≡ true → P row → P (change row))
      → (rows : List A) → All P rows
      → All P (update_where p change rows)
  unfolding update_where
  All-update_where P p change keep [] h = tt
  All-update_where P p change keep (x ∷ rows) h =
      ground (arith, keep x, All-update_where P p change keep rows h.1)

  -- What every move keeps and every new row has, every step keeps of the whole table.
  pub step-All :
      (Move : A → A → Type 0) (IsNew : A → Type 0) (P : A → Type 0)
      → ((row row' : A) → Move row row' → P row → P row')
      → ((row : A) → IsNew row → P row)
      → (rows rows' : List A) → TableStep Move IsNew rows rows'
      → All P rows
      → All P rows'
  step-All Move IsNew P keep start rows rows' (unchanged e) h = subst (All P) (sym e) h
  step-All Move IsNew P keep start rows rows' (moved p row change f m e) h =
      rw e (
        All-update_one P p change rows row f h
          (keep row (change row) m (All-find P p rows row f h)))
  step-All Move IsNew P keep start rows rows' (moved_all p change m e) h =
      rw e (All-update_where P p change (λ row t. keep row (change row) (m row t)) rows h)
  step-All Move IsNew P keep start rows rows' (added row n e) h = rw e (start row n, h)
  step-All Move IsNew P keep start rows rows' (removed p e) h = rw e (All-delete_one P p rows h)

  module _ (key : A → ℕ) where
    -- the primary keys are distinct
    abbrev pub IsKeyed : List A → Type 0
    IsKeyed [] = Unit
    IsKeyed (x ∷ xs) = All (λ y. key y ≢ key x) xs × IsKeyed xs

    -- A row of the table is found by its key.
    pub keyed-find :
        (rows : List A) (row : A)
        → IsKeyed rows
        → In row rows
        → find_in (λ x. key x == key row) rows ≡ some row
    unfolding find_in
    keyed-find [] row k h = absurd h
    keyed-find (x ∷ rows) row k (inl e) = rw e (ground arith)
    keyed-find (x ∷ rows) row k (inr h) =
        ground (arith, All-In (λ y. key y ≢ key x) rows row k.0 h, keyed-find rows row k.1 h)

    -- The row that a query found is the one with its key.
    pub find-key :
        (p : A → Bool) (rows : List A) (row : A)
        → IsKeyed rows
        → find_in p rows ≡ some row
        → find_in (λ x. key x == key row) rows ≡ some row
    unfolding find_in
    find-key p [] row k f = cc
    find-key p (x ∷ rows) row k f = elim (Bool-cases (p x)) [
      | inl e ↦ let same : x ≡ row = ground (arith, e) in rw same (ground arith)
      | inr e ↦
          let later : find_in p rows ≡ some row = ground (arith, e) in
          let other = All-find (λ y. key y ≢ key x) p rows row later k.0 in
          ground (arith, find-key p rows row k.1 later, other)
    ]

    module _ (p : A → Bool) (change : A → A) (row : A) (same : key (change row) ≡ key row) where
      All-key-update_one :
          (P : ℕ → Type 0) (rows : List A)
          → find_in p rows ≡ some row
          → All (λ y. P (key y)) rows
          → All (λ y. P (key y)) (update_one p change rows)
      All-key-update_one P rows f h =
          All-update_one (λ y. P (key y)) p change rows row f h
            (subst P (sym same) (All-find (λ y. P (key y)) p rows row f h))

      update_one-IsKeyed :
          (rows : List A)
          → find_in p rows ≡ some row
          → IsKeyed rows
          → IsKeyed (update_one p change rows)
      unfolding update_one find_in
      update_one-IsKeyed [] f k = tt
      update_one-IsKeyed (x ∷ rows) f k = elim (Bool-cases (p x)) [
        | inl e ↦
            let this : x ≡ row = ground (arith, e) in rw e (rw this (rw same (rw this at k.0)), k.1)
        | inr e ↦
            let later : find_in p rows ≡ some row = ground (arith, e) in
            rw e (
              All-key-update_one (λ n. n ≢ key x) rows later k.0,
              update_one-IsKeyed rows later k.1,
            )
      ]

    All-key-update_where :
        (P : ℕ → Type 0) (p : A → Bool) (change : A → A)
        → ((row : A) → p row ≡ true → key (change row) ≡ key row)
        → (rows : List A) → All (λ y. P (key y)) rows
        → All (λ y. P (key y)) (update_where p change rows)
    All-key-update_where P p change same =
        All-update_where (λ y. P (key y)) p change (λ row t h. subst P (sym (same row t)) h)

    update_where-IsKeyed :
        (p : A → Bool) (change : A → A)
        → ((row : A) → p row ≡ true → key (change row) ≡ key row)
        → (rows : List A) → IsKeyed rows
        → IsKeyed (update_where p change rows)
    unfolding update_where
    update_where-IsKeyed p change same [] k = tt
    update_where-IsKeyed p change same (x ∷ rows) k =
        let rest = All-key-update_where (λ n. n ≢ key x) p change same rows k.0 in
        let after = update_where-IsKeyed p change same rows k.1 in
        elim (Bool-cases (p x)) [
          | inl e ↦ rw e (rw (same x e) rest, after)
          | inr e ↦ rw e (rest, after)
        ]

    delete_one-IsKeyed : (p : A → Bool) (rows : List A) → IsKeyed rows → IsKeyed (delete_one p rows)
    unfolding delete_one
    delete_one-IsKeyed p [] k = tt
    delete_one-IsKeyed p (x ∷ rows) k =
        ground
          (arith, All-delete_one (λ y. key y ≢ key x) p rows k.0, delete_one-IsKeyed p rows k.1)

    -- The keys stay distinct, if moves leave them alone and a new row has one of its own.
    pub step-IsKeyed :
        (Move : A → A → Type 0) (IsNew : A → Type 0) (rows rows' : List A)
        → ((row row' : A) → Move row row' → key row' ≡ key row)
        → ((row : A) → IsNew row → All (λ y. key y ≢ key row) rows)
        → TableStep Move IsNew rows rows'
        → IsKeyed rows
        → IsKeyed rows'
    step-IsKeyed Move IsNew rows rows' same own (unchanged e) k = subst IsKeyed (sym e) k
    step-IsKeyed Move IsNew rows rows' same own (moved p row change f m e) k =
        rw e (update_one-IsKeyed p change row (same row (change row) m) rows f k)
    step-IsKeyed Move IsNew rows rows' same own (moved_all p change m e) k =
        rw e (update_where-IsKeyed p change (λ row t. same row (change row) (m row t)) rows k)
    step-IsKeyed Move IsNew rows rows' same own (added row n e) k = rw e (own row n, k)
    step-IsKeyed Move IsNew rows rows' same own (removed p e) k = rw e (delete_one-IsKeyed p rows k)

module _ {A : Type 0} where
  pub All-both :
      (P Q R : A → Type 0) (xs : List A)
      → ((x : A) → P x → Q x → R x)
      → All P xs
      → All Q xs
      → All R xs
  All-both P Q R [] f h k = tt
  All-both P Q R (x ∷ xs) f h k = (f x h.0 k.0, All-both P Q R xs f h.1 k.1)

  -- The one row with a property, once updated, is the only one that may still have it.
  pub only-update_one :
      (key : A → ℕ) (Q : A → Type 0) (f : A → A) (rows : List A) (a : A)
      → All (λ x. Q x → x ≡ a) rows
      → IsKeyed key rows
      → find_in (λ x. key x == key a) rows ≡ some a
      → All (λ x. (x ≡ f a) ⊎ (Q x → ⊥)) (update_one (λ x. key x == key a) f rows)
  unfolding find_in update_one
  only-update_one key Q f [] a h k e = tt
  only-update_one key Q f (y ∷ rows) a h k e = elim (Bool-cases (key y == key a)) [
    | inl t ↦
        let same : y ≡ a = ground (arith, e, t) in
        rw t (
          inl (ap f same),
          All-both (λ x. key x ≢ key y) (λ x. Q x → x ≡ a) (λ x. (x ≡ f a) ⊎ (Q x → ⊥)) rows
              (λ x n g. inr (λ q. n (ap key (g q) ∙ sym (ap key same)))) k.0 h.1,
        )
    | inr t ↦ rw t (
      inr (λ q. absurd (ground (arith, t, ap key (h.0 q)))),
      only-update_one key Q f rows a h.1 k.1 (ground (arith, e, t)),
    )
  ]
