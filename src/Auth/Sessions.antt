-- ===== src/Auth/Sessions.antt =====
-- Sessions: what a token stands for, and the login that makes one.
use veervrat_app.Base.{
  ℕ, ◌+◌, ◌≤◌, ◌≡◌, ◌⊎◌, refl, inl, inr, Bool, true, not, none, some, List, [], ◌∷◌, ◌==◌, ltb,
  IsKeyed, keyed-find, is_some, filter_by, find_in, arith, Bool-cases, Option-cases,
}
use veervrat_app.Model.{User, Session, Text, Db, ok, Prisma}
use veervrat_app.Auth.{
  Env, Draw, days, normalised, user_of, to_session_user, find_user_by_email,
  find_email_account_by_user_id, find_session_by_token, delete_session, update_session_activity,
  save_session, insert_session, check_lockout, clear_lockout, record_failed_login,
}
use veervrat_app.Auth.Operations.Access.{AuthResult, create_session, new_session, hash_of}
use veervrat_app.Auth.Operations.Login.{login, is_barred, validate_session}

find-filter :
    (token : ℕ) (rows : List Session)
    → find_in (λ s. s.token == token) (filter_by (λ s. not (s.token == token)) rows) ≡ none
unfolding find_in filter_by
find-filter token [] = refl
find-filter token (s ∷ rows) = ground (arith, find-filter token rows)

find-id :
    (p : Session → Bool) (rows : List Session) (s : Session)
    → find_in p rows ≡ some s
    → (x : Session) × (find_in (λ y. y.id == s.id) rows ≡ some x)
unfolding find_in
find-id p [] s h = absurd (ground arith)
find-id p (y ∷ rows) s h = elim (Bool-cases (y.id == s.id)) [
  | inl t ↦ (y, ground (arith, t))
  | inr f ↦ elim (Bool-cases (p y)) [
    | inl t ↦ absurd (ground (arith, h, t, f))
    | inr g ↦ let (x, e) = find-id p rows s (ground (arith, h, g)) in (x, ground (arith, e, f))
  ]
]

-- The session of this token may be used now: it has not run out, and its user is neither deleted nor
-- suspended.
pub record IsOpen (now token : ℕ) (db : Db) (s : Session) (u : User) : Type 0 where
  pub session : find_session_by_token token db ≡ some s
  pub unexpired : now ≤ s.expires_at
  pub user : user_of s.user_id db ≡ some u
  pub kept : u.deleted_at ≡ none
  pub active : u.suspended_at ≡ none

module _ (env : Env) (now token : ℕ) (db : Db) where
  open-answered :
      (s : Session) (u : User)
      → IsOpen now token db s u
      → (validate_session env now token db).0
        ≡ ok (some (record { user = to_session_user u db; session_id = s.id }))
  unfolding validate_session find_session_by_token update_session_activity save_session
  open-answered s u o =
      let (x, e) = find-id (λ y. y.token == token) db.sessions s o.session in
      ground (arith, e, o.session, o.unexpired, o.user, o.kept, o.active)

  -- A token is answered in one of two ways, never with an error: with the user and the session, if
  -- the session has not run out and the user is neither deleted nor suspended, or with nothing, and
  -- then no session of that token is left.
  pub validate_session-IsOpen :
      let (answer, db') = validate_session env now token db in
      ((s : Session) × (u : User) × IsOpen now token db s u
        × (answer ≡ ok (some (record { user = to_session_user u db; session_id = s.id }))))
      ⊎ ((answer ≡ ok none) × (find_session_by_token token db' ≡ none))
  unfolding validate_session find_session_by_token delete_session
  validate_session-IsOpen = elim (Option-cases (find_in (λ s. s.token == token) db.sessions)) [
    | inl e ↦ inr (ground (arith, e), ground (arith, e))
    | inr (s, e) ↦ elim (Bool-cases (ltb s.expires_at now)) [
      | inl t ↦ inr (ground (arith, e, t), ground (arith, e, t, find-filter token db.sessions))
      | inr f ↦ elim (Option-cases (user_of s.user_id db)) [
        | inl n ↦
            inr (ground (arith, e, f, n), ground (arith, e, f, n, find-filter token db.sessions))
        | inr (u, g) ↦ elim (Bool-cases (is_barred u)) [
          | inl b ↦ inr (
            ground (arith, e, f, g, b),
            ground (arith, e, f, g, b, find-filter token db.sessions),
          )
          | inr b ↦
              let o : IsOpen now token db s u = record {
                session = e;
                unexpired = ground (arith, f);
                user = g;
                kept = ground (arith, b);
                active = ground (arith, b);
              } in
              inl (s, u, o, open-answered s u o)
        ]
      ]
    ]
  ]

-- A user that may sign in with this password.
pub record IsAdmitted (prisma : Prisma) (env : Env) (address password : Text) (db : Db) (u : User)
    : Type 0 where
  pub user : find_user_by_email prisma address db ≡ some u
  pub password_right :
      (hashed : Text) × (hash_of (find_email_account_by_user_id prisma u.id db) ≡ some hashed)
      × (env.compare password hashed ≡ true)
  pub verified : is_some u.email_verified_at ≡ true
  pub active : u.suspended_at ≡ none

module _ (prisma : Prisma) (env : Env) (draw : Draw) (raw_email password : Text) (db : Db) where
  -- the database after a login
  abbrev entered : User → Db
  entered u = record (clear_lockout (normalised env raw_email) db) {
    sessions = new_session env draw u.id ∷ db.sessions;
  }

  login-cases :
      (a : AuthResult)
      → (login prisma env draw raw_email password db).0 ≡ ok a
      → (u : User) × IsAdmitted prisma env (normalised env raw_email) password db u
        × (a ≡ record { user = to_session_user u db; session_token = draw.session_token })
        × ((login prisma env draw raw_email password db).1 ≡ entered u)
  unfolding login create_session insert_session clear_lockout record_failed_login
  login-cases a h =
      let address = normalised env raw_email in
      elim (Bool-cases (check_lockout draw.now address db).locked) [
        | inl l ↦ absurd (ground (arith, h, l))
        | inr l ↦ elim (Option-cases (find_user_by_email prisma address db)) [
          | inl n ↦ absurd (ground (arith, h, l, n))
          | inr (u, f) ↦
              elim (Option-cases (hash_of (find_email_account_by_user_id prisma u.id db))) [
                | inl n ↦ absurd (ground (arith, h, l, f, n))
                | inr (hashed, g) ↦ (
                  u,
                  record {
                    user = f;
                    password_right = (hashed, g, ground (arith, h, l, f, g));
                    verified = ground (arith, h, l, f, g);
                    active = ground (arith, h, l, f, g);
                  },
                  ground (arith, h, l, f, g),
                  ground (arith, h, l, f, g),
                )
              ]
        ]
      ]

  -- A login that is answered has found a user with this address, who is verified and not suspended
  -- and whose password it is; and until the session's time is over the token that it gives stands
  -- for that user, with the same roles.
  pub login-validate_session :
      (a : AuthResult) (later : ℕ)
      → IsKeyed (λ (u : User). u.id) db.users
      → later ≤ draw.now + days env.session_ttl_days
      → (login prisma env draw raw_email password db).0 ≡ ok a
      → let db' = (login prisma env draw raw_email password db).1 in
        ((u : User) × IsAdmitted prisma env (normalised env raw_email) password db u
          × (a.user ≡ to_session_user u db))
        × ((validate_session env later a.session_token db').0
            ≡ ok (some (record { user = a.user; session_id = draw.session_id })))
  unfolding find_user_by_email find_session_by_token clear_lockout find_in
  login-validate_session a later k t h =
      let (u, i, e, d) = login-cases a h in
      let is = prisma.find_first-eq-some _ db.users u i.user in
      let o : IsOpen later draw.session_token (entered u) (new_session env draw u.id) u = record {
        session = ground arith;
        unexpired = t;
        user = keyed-find (λ (u : User). u.id) db.users u k is.0;
        kept = ground (arith, is.1);
        active = i.active;
      } in
      rw (e, d)
        (
          (u, i, refl),
          open-answered env later draw.session_token (entered u) (new_session env draw u.id) u o,
        )
