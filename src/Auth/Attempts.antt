-- ===== src/Auth/Attempts.antt =====
-- Failed logins in a row.
use veervrat_app.Base.{
  ℕ, ◌+◌, ◌-◌, ◌≤◌, ◌<◌, ◌≡◌, refl, sym, ◌∙◌, ap, subst, inl, inr, not, Option, none, some, List,
  [], ◌∷◌, ◌==◌, length, find_in, filter_by, arith, Bool-cases, Option-cases,
}
use veervrat_app.Model.{
  Lockout, Text, text_eq, text_eq_refl, Db, err, account_locked, invalid_credentials, Prisma,
}
use veervrat_app.Auth.{
  Env, Draw, normalised, unlocked, ceil_seconds, is_live, find_lockout, check_lockout,
  record_failed_login, insert_session, find_user_by_email, find_email_account_by_user_id,
}
use veervrat_app.Auth.Operations.Access.{create_session, hash_of}
use veervrat_app.Auth.Operations.Login.{login}

-- the failures at these times, one after the other
abbrev pub fail_at : List ℕ → Text → Db → Db
fail_at [] address db = db
fail_at (t ∷ times) address db = fail_at times address (record_failed_login t address db)

-- Each time comes within an hour of the one before.
abbrev pub AreClose : ℕ → List ℕ → Type 0
AreClose before [] = Unit
AreClose before (t ∷ times) = (before ≤ t) × (t < before + 3600000) × AreClose t times

abbrev pub last_of : ℕ → List ℕ → ℕ
last_of before [] = before
last_of before (t ∷ times) = last_of t times

removed :
    (now : ℕ) (address : Text) (rows : List Lockout)
    → find_in (is_live now address) (filter_by (λ l. not (text_eq l.email address)) rows) ≡ none
unfolding find_in filter_by
removed now address [] = refl
removed now address (l ∷ rows) = ground (arith, removed now address rows)

abbrev row_of : Text → (failures : ℕ) → Option ℕ → (expires_at : ℕ) → Lockout
row_of address failures locked_until expires_at = record {
  email = address;
  failures = failures;
  locked_until = locked_until;
  expires_at = expires_at;
}

-- So many failures are counted, the last of them at this time.
abbrev IsCounting : Text → (before n : ℕ) → Db → Type 0
IsCounting address before n db =
    (now : ℕ)
    → now < before + 3600000
    → find_lockout now address db ≡ some (row_of address n none (before + 3600000))

-- The address is locked for a quarter of an hour from this time on.
pub record IsLocked (address : Text) (since : ℕ) (db : Db) : Type 0 where
  pub until :
      (now : ℕ)
      → now < since + 900000
      → (n : ℕ) × (find_lockout now address db
          ≡ some (row_of address n (some (since + 900000)) (since + 900000)))
  pub over : (now : ℕ) → since + 900000 ≤ now → find_lockout now address db ≡ none

first-counted :
    (t : ℕ) (address : Text) (db : Db)
    → find_lockout t address db ≡ none
    → IsCounting address t 1 (record_failed_login t address db)
unfolding record_failed_login find_lockout find_in
first-counted t address db e now h = ground (arith, e, h, text_eq_refl address)

next-counted :
    (before t n : ℕ) (address : Text) (db : Db)
    → IsCounting address before n db
    → t < before + 3600000
    → n < 9
    → IsCounting address t (n + 1) (record_failed_login t address db)
unfolding record_failed_login find_lockout find_in
next-counted before t n address db c o b now h = ground (arith, c t o, b, h, text_eq_refl address)

last-IsLocked :
    (before t : ℕ) (address : Text) (db : Db)
    → IsCounting address before 9 db
    → t < before + 3600000
    → IsLocked address t (record_failed_login t address db)
unfolding record_failed_login find_lockout find_in
last-IsLocked before t address db c o = record {
  until = λ now h. (10, ground (arith, c t o, h, text_eq_refl address));
  over = λ now h. ground (arith, c t o, h, text_eq_refl address, removed now address db.lockouts);
}

run-IsLocked :
    (times : List ℕ) (before n : ℕ) (address : Text) (db : Db)
    → IsCounting address before n db
    → n + length times ≡ 10
    → n < 10
    → AreClose before times
    → IsLocked address (last_of before times) (fail_at times address db)
run-IsLocked [] before n address db c e b k = absurd (omega (arith, e, b))
run-IsLocked (t ∷ times) before n address db c e b k = elim (Bool-cases (n == 9)) [
  | inl nine ↦ ended times (ground (arith, e, nine)) (
      last-IsLocked before t address db
        (subst (λ m. IsCounting address before m db) (ground (arith, nine)) c) k.1)
  | inr less ↦
      run-IsLocked times t (n + 1) address (record_failed_login t address db)
        (next-counted before t n address db c k.1 (ground (arith, b, less))) (ground (arith, e))
        (ground (arith, b, less)) k.2
]
  where
    ended :
        (rest : List ℕ)
        → length rest ≡ 0
        → IsLocked address t (record_failed_login t address db)
        → IsLocked address
            (last_of t rest)
            (fail_at rest address (record_failed_login t address db))
    ended [] z l = l
    ended (x ∷ rest) z l = absurd (omega (arith, z))

-- the logins with this address, one after the other, each with its own clock and password
abbrev pub Attempt : Type 0
Attempt = Draw × Text

abbrev pub times_of : List Attempt → List ℕ
times_of [] = []
times_of ((draw, password) ∷ rest) = draw.now ∷ times_of rest

length-times_of : (attempts : List Attempt) → length (times_of attempts) ≡ length attempts
length-times_of [] = refl
length-times_of (a ∷ rest) = ground (arith, length-times_of rest)

module _ (prisma : Prisma) (env : Env) (raw_email : Text) where
  abbrev pub attempt_all : List Attempt → Db → Db
  attempt_all [] db = db
  attempt_all ((draw, password) ∷ rest) db =
      attempt_all rest (login prisma env draw raw_email password db).1

  -- Each of them is answered that the credentials are wrong.
  abbrev pub AreRefused : List Attempt → Db → Type 0
  AreRefused [] db = Unit
  AreRefused ((draw, password) ∷ rest) db =
      ((login prisma env draw raw_email password db).0 ≡ err invalid_credentials)
      × AreRefused rest (login prisma env draw raw_email password db).1

  login-record_failed_login :
      (draw : Draw) (password : Text) (db : Db)
      → (login prisma env draw raw_email password db).0 ≡ err invalid_credentials
      → (login prisma env draw raw_email password db).1
        ≡ record_failed_login draw.now (normalised env raw_email) db
  unfolding login create_session insert_session
  login-record_failed_login draw password db h =
      let address = normalised env raw_email in
      elim (Bool-cases (check_lockout draw.now address db).locked) [
        | inl l ↦ absurd (ground (arith, h, l))
        | inr l ↦ elim (Option-cases (find_user_by_email prisma address db)) [
          | inl n ↦ ground (arith, h, l, n)
          | inr (u, f) ↦
              elim (Option-cases (hash_of (find_email_account_by_user_id prisma u.id db))) [
                | inl n ↦ ground (arith, h, l, f, n)
                | inr (hashed, g) ↦ ground (arith, h, l, f, g)
              ]
        ]
      ]

  attempt_all-fail_at :
      (attempts : List Attempt) (db : Db)
      → AreRefused attempts db
      → attempt_all attempts db ≡ fail_at (times_of attempts) (normalised env raw_email) db
  attempt_all-fail_at [] db r = refl
  attempt_all-fail_at ((draw, password) ∷ rest) db r =
      attempt_all-fail_at rest (login prisma env draw raw_email password db).1 r.1
      ∙ ap (fail_at (times_of rest) (normalised env raw_email))
          (login-record_failed_login draw password db r.0)

  locked-login :
      (last : ℕ) (draw : Draw) (password : Text) (db : Db)
      → IsLocked (normalised env raw_email) last db
      → last ≤ draw.now
      → draw.now < last + 900000
      → (seconds : ℕ) × (login prisma env draw raw_email password db
          ≡ (err (account_locked seconds), db))
        × (0 < seconds)
        × (seconds ≤ 900)
  unfolding login check_lockout
  locked-login last draw password db l o h =
      let (m, e) = l.until draw.now h in
      (
        ceil_seconds (last + 900000 - draw.now),
        ground (arith, e, h),
        omega (arith, o, h),
        omega (arith, o, h),
      )

over-unlocked :
    (address : Text) (last now : ℕ) (db : Db)
    → IsLocked address last db
    → last + 900000 ≤ now
    → check_lockout now address db ≡ unlocked
unfolding check_lockout
over-unlocked address last now db l h = ground (arith, l.over now h)

-- After ten logins with one address that were answered that the credentials are wrong, each within
-- an hour of the one before, where no failure counted before the first, every login with this
-- address, whatever the password, is refused for fifteen minutes from the last one on, with the
-- number of seconds that are left, of 900 at most, and changes nothing; after that nothing counts
-- against the address any more.
pub ten_failures-login :
    (prisma : Prisma) (env : Env) (draw : Draw) (password : Text) (rest : List Attempt)
    (raw_email : Text) (db : Db)
    → length rest ≡ 9
    → AreClose draw.now (times_of rest)
    → AreRefused prisma env raw_email ((draw, password) ∷ rest) db
    → find_lockout draw.now (normalised env raw_email) db ≡ none
    → let last = last_of draw.now (times_of rest) in
      let db' = attempt_all prisma env raw_email ((draw, password) ∷ rest) db in
      ((later : Draw) (tried : Text)
        → last ≤ later.now
        → later.now < last + 900000
        → (seconds : ℕ) × (login prisma env later raw_email tried db'
            ≡ (err (account_locked seconds), db'))
          × (0 < seconds)
          × (seconds ≤ 900))
      × ((now : ℕ)
          → last + 900000 ≤ now
          → check_lockout now (normalised env raw_email) db' ≡ unlocked)
ten_failures-login prisma env draw password rest raw_email db n k r f =
    let address = normalised env raw_email in
    let last = last_of draw.now (times_of rest) in
    let locked =
      subst (IsLocked address last)
        (sym (attempt_all-fail_at prisma env raw_email ((draw, password) ∷ rest) db r))
        (run-IsLocked (times_of rest) draw.now 1 address (record_failed_login draw.now address db)
          (first-counted draw.now address db f) (omega (arith, n, length-times_of rest))
          (omega arith) k) in
    (
      (λ later tried. locked-login prisma env raw_email last later tried _ locked),
      (λ now. over-unlocked address last now _ locked),
    )
