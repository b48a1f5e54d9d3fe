-- ===== src/Model/Queries.antt =====
-- The one query of Prisma whose answer its documentation leaves open: `findFirst` with no
-- `orderBy` returns some row that the filter accepts, and null if there is none. Which row it
-- returns is a parameter. Filters, updates and inserts are list functions over the tables.
use veervrat_app.Base.{
  ◌≡◌, Bool, true, false, Option, none, some, List, All, In, find_in, find_in-eq-some,
  find_in-eq-none,
}

pub record Prisma : Type 1 where
  pub find_first : {A : Type 0} → (A → Bool) → List A → Option A
  pub find_first-eq-some :
      {A : Type 0} (p : A → Bool) (rows : List A) (row : A)
      → find_first p rows ≡ some row
      → In row rows × (p row ≡ true)
  pub find_first-eq-none :
      {A : Type 0} (p : A → Bool) (rows : List A)
      → find_first p rows ≡ none
      → All (λ row. p row ≡ false) rows

-- the first row in the table's order
abbrev pub in_order : Prisma
in_order = record {
  find_first = λ {A} p rows. find_in p rows;
  find_first-eq-some = find_in-eq-some;
  find_first-eq-none = find_in-eq-none;
}
