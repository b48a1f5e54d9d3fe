-- ===== src/Model/Monad.antt =====
-- A service call reads and writes the database and may throw. What was written before a throw
-- stays written, since the calls run in no transaction.
use veervrat_app.Base.{Bool, Option, none, some, if◌then◌else◌, ◌≡◌, ap}
use veervrat_app.Model.Rows.{Db}
use veervrat_app.Model.Errors.{AppError}

pub data Result (A : Type 0) : Type 0 where
  ok : A → Result A
  err : AppError → Result A

abbrev pub Service : Type 0 → Type 0
Service A = Db → Result A × Db

module _ {A : Type 0} where
  abbrev pub return : A → Service A
  return a db = (ok a, db)

  abbrev pub throw : AppError → Service A
  throw e db = (err e, db)

  -- a query
  abbrev pub query : (Db → A) → Service A
  query f db = (ok (f db), db)

  -- `if (!found) throw e`
  abbrev pub or_throw : AppError → Option A → Service A
  or_throw e none = throw e
  or_throw e (some a) = return a

infixl 5 ◌>>=◌ ◌>>◌
abbrev pub ◌>>=◌ : {A B : Type 0} → Service A → (A → Service B) → Service B
◌>>=◌ m f db = let (r, db') = m db in elim r [ ok a ↦ f a db' | err e ↦ throw e db' ]

abbrev pub ◌>>◌ : {A B : Type 0} → Service A → Service B → Service B
m >> k = m >>= λ _. k

-- `if (!test) throw e`
abbrev pub require : Bool → AppError → Service (Unit {0})
require test e db = (if test then ok tt else err e, db)

-- a write
abbrev pub modify : (Db → Db) → Service (Unit {0})
modify f db = (ok tt, f db)

-- A step whose outcome is known, under the rest of the call.
module _ {A B : Type 0} (m : Service A) (k : A → Service B) {db db' : Db} where
  pub bind-ok : {a : A} → m db ≡ (ok a, db') → (m >>= k) db ≡ k a db'
  bind-ok e = ap (λ (p : Result A × Db). elim p.0 [ ok a ↦ k a p.1 | err x ↦ throw x p.1 ]) e

  pub bind-err : {e : AppError} → m db ≡ (err e, db') → (m >>= k) db ≡ (err e, db')
  bind-err e = ap (λ (p : Result A × Db). elim p.0 [ ok a ↦ k a p.1 | err x ↦ throw x p.1 ]) e
