-- ===== src/Base/Lists.antt =====
-- Lists searched by a Boolean test.
use Prim.Native.Nat.{ℕ, zero, suc, ◌+◌, ◌≤◌}
use mathlib.Core.Path.{◌≡◌, subst}
use mathlib.Core.Logic.{◌↔◌, ◌⊎◌, inl, inr}
use mathlib.Core.Bool.{Bool, true, false, ◌||◌}
use mathlib.Core.Option.{Option, none, some}
use mathlib.Core.List.{List, [], ◌∷◌}
use native.Mathlib.Omega.{arith}
use veervrat_app.Base.Tests.{if◌then◌else◌, leb}

-- A list holds a value with this property.
abbrev pub Some {ℓ} : {A : Type ℓ} → (A → Type 0) → List A → Type 0
Some P [] = ⊥
Some P (x ∷ xs) = P x ⊎ Some P xs

abbrev pub All {ℓ κ} : {A : Type ℓ} → (A → Type κ) → List A → Type κ
All P [] = Unit
All P (x ∷ xs) = P x × All P xs

-- membership, as a sum of equations
abbrev pub In : {A : Type 0} → A → List A → Type 0
In a xs = Some (λ x. x ≡ a) xs

module _ {ℓ} {A : Type ℓ} where
  abbrev pub length : List A → ℕ
  length [] = 0
  length (x ∷ xs) = suc (length xs)

  abbrev pub get_elem? : List A → ℕ → Option A
  get_elem? [] i = none
  get_elem? (x ∷ xs) zero = some x
  get_elem? (x ∷ xs) (suc i) = get_elem? xs i

  -- `xs.some(p)`
  unfoldable pub some_of : (A → Bool) → List A → Bool
  some_of p [] = false
  some_of p (x ∷ xs) = p x || some_of p xs

  -- `xs.filter(p)`
  unfoldable pub filter_by : (A → Bool) → List A → List A
  filter_by p [] = []
  filter_by p (x ∷ xs) = let rest = filter_by p xs in if p x then x ∷ rest else rest

  -- `xs.find(p)`
  unfoldable pub find_in : (A → Bool) → List A → Option A
  find_in p [] = none
  find_in p (x ∷ xs) = if p x then some x else find_in p xs

  -- every value that passes the test goes through `f`
  unfoldable pub update_where : (A → Bool) → (A → A) → List A → List A
  update_where p f [] = []
  update_where p f (x ∷ xs) = (if p x then f x else x) ∷ update_where p f xs

module _ {A : Type 0} where
  pub some_of_iff : (p : A → Bool) (xs : List A) → (some_of p xs ≡ true) ↔ Some (λ x. p x ≡ true) xs
  unfolding some_of
  some_of_iff p [] = ground arith
  some_of_iff p (x ∷ xs) = ground (arith, (some_of_iff p xs).0, (some_of_iff p xs).1)

  pub find_in-eq-some :
      (p : A → Bool) (xs : List A) (a : A) → find_in p xs ≡ some a → In a xs × (p a ≡ true)
  unfolding find_in
  find_in-eq-some p [] a h = cc
  find_in-eq-some p (x ∷ xs) a h = ground (arith, find_in-eq-some p xs a)

  pub find_in-eq-none :
      (p : A → Bool) (xs : List A) → find_in p xs ≡ none → All (λ x. p x ≡ false) xs
  unfolding find_in
  find_in-eq-none p [] h = tt
  find_in-eq-none p (x ∷ xs) h = ground (arith, find_in-eq-none p xs)

  pub All-In {κ} : (P : A → Type κ) (xs : List A) (a : A) → All P xs → In a xs → P a
  All-In P [] a h m = absurd m
  All-In P (x ∷ xs) a h (inl e) = subst P e h.0
  All-In P (x ∷ xs) a h (inr m) = All-In P xs a h.1 m

module _ {ℓ} {A : Type ℓ} where
  abbrev pub take : ℕ → List A → List A
  take zero xs = []
  take (suc n) [] = []
  take (suc n) (x ∷ xs) = x ∷ take n xs

  pub length-take-le : (n : ℕ) (xs : List A) → length (take n xs) ≤ n
  length-take-le zero xs = omega arith
  length-take-le (suc n) [] = omega arith
  length-take-le (suc n) (x ∷ xs) = omega (arith, length-take-le n xs)

  -- how many values pass the test
  unfoldable pub count_of : (A → Bool) → List A → ℕ
  count_of p [] = 0
  count_of p (x ∷ xs) = (if p x then 1 else 0) + count_of p xs

  -- the update of the row with a primary key: the first that passes the test
  unfoldable pub update_one : (A → Bool) → (A → A) → List A → List A
  update_one p f [] = []
  update_one p f (x ∷ xs) = if p x then f x ∷ xs else x ∷ update_one p f xs

  -- the deletion of the row with a primary key
  unfoldable pub delete_one : (A → Bool) → List A → List A
  delete_one p [] = []
  delete_one p (x ∷ xs) = if p x then xs else x ∷ delete_one p xs

  -- `orderBy: { key: 'asc' }`, rows with equal keys in the table's order
  abbrev pub insert_by : (A → ℕ) → A → List A → List A
  insert_by key a [] = a ∷ []
  insert_by key a (x ∷ xs) = if leb (key a) (key x) then a ∷ x ∷ xs else x ∷ insert_by key a xs

  unfoldable pub order_by : (A → ℕ) → List A → List A
  order_by key [] = []
  order_by key (x ∷ xs) = insert_by key x (order_by key xs)

module _ {A : Type 0} (P : A → Type 0) (p : A → Bool) where
  pub All-update_one :
      (f : A → A) (xs : List A) (a : A)
      → find_in p xs ≡ some a
      → All P xs
      → P (f a)
      → All P (update_one p f xs)
  unfolding find_in update_one
  All-update_one f [] a e h c = tt
  All-update_one f (x ∷ xs) a e h c = ground (arith, All-update_one f xs a)

  pub All-delete_one : (xs : List A) → All P xs → All P (delete_one p xs)
  unfolding delete_one
  All-delete_one [] h = tt
  All-delete_one (x ∷ xs) h = ground (arith, All-delete_one xs)

  pub All-find : (xs : List A) (a : A) → find_in p xs ≡ some a → All P xs → P a
  All-find xs a e h = All-In P xs a h (find_in-eq-some p xs a e).0

  pub Some-update_one :
      (f : A → A) (xs : List A) (a : A)
      → find_in p xs ≡ some a
      → (P a → P (f a))
      → Some P xs
      → Some P (update_one p f xs)
  unfolding find_in update_one
  Some-update_one f [] a e c h = absurd h
  Some-update_one f (x ∷ xs) a e c (inl h) = ground arith
  Some-update_one f (x ∷ xs) a e c (inr h) = ground (arith, Some-update_one f xs a)

module _ {A : Type 0} (p : A → Bool) where
  pub find_in-update_one :
      (f : A → A) (xs : List A) (a : A)
      → find_in p xs ≡ some a
      → p (f a) ≡ true
      → find_in p (update_one p f xs) ≡ some (f a)
  unfolding find_in update_one
  find_in-update_one f [] a e t = absurd (cc e)
  find_in-update_one f (x ∷ xs) a e t = ground (arith, find_in-update_one f xs a)
