-- ===== src/Model/Outcomes.antt =====
-- What holds between the database before a call and after it, however the call ended: rules for
-- the checks that a call begins with, for a relation that holds where nothing changed.
use veervrat_app.Base.{◌≡◌, refl, Bool, true, false, Option, none, some}
use veervrat_app.Model.Rows.{Db}
use veervrat_app.Model.Errors.{AppError}
use veervrat_app.Model.Monad.{Service, Result, ok, err, throw, or_throw, require, ◌>>=◌, ◌>>◌}

module _ (R : Db → Db → Type 0) (R_refl : (db : Db) → R db db) (db : Db) where
  abbrev pub Outcome : {B : Type 0} → Result B × Db → Type 0
  Outcome (r, db') = R db db'

  pub guard-Outcome :
      {B : Type 0} (test : Bool) (e : AppError) (k : Service B)
      → (test ≡ true → Outcome (k db))
      → Outcome ((require test e >> k) db)
  guard-Outcome true e k h = h refl
  guard-Outcome false e k h = R_refl db

  pub found-Outcome :
      {A B : Type 0} (e : AppError) (o : Option A) (k : A → Service B)
      → ((a : A) → o ≡ some a → Outcome (k a db))
      → Outcome ((or_throw e o >>= k) db)
  found-Outcome e none k h = R_refl db
  found-Outcome e (some a) k h = h a refl

  -- What follows keeps what the first write established.
  pub then-Outcome :
      {A B : Type 0} (m : Service A) (k : A → Service B)
      → ((a : A) (db' : Db) → R db db' → Outcome (k a db'))
      → Outcome (m db)
      → Outcome ((m >>= k) db)
  then-Outcome {A} {B} m k keep h = ended (m db).0 (m db).1 h
    where
      ended :
          (r : Result A) (db' : Db)
          → R db db'
          → Outcome {B = B} (elim r [ ok a ↦ k a db' | err e ↦ throw e db' ])
      ended (ok a) db' h = keep a db' h
      ended (err e) db' h = h
