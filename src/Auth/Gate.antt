-- ===== src/Auth/Gate.antt =====
-- The age gate: which requests make an account.
use veervrat_app.Base.{
  ℕ, ◌+◌, ◌≡◌, refl, ◌∙◌, subst, ◌⊎◌, inl, inr, true, not, Option, none, some, List, ◌∷◌, ◌==◌, ltb,
  is_some, some_of, find_in, delete_one, Bool-cases, if◌then◌else◌,
}
use veervrat_app.Model.{
  User, PendingSignup, PolicyVersion, SessionUser, email_verification, no_metadata, AuthProvider,
  AuthAccount, Session, VerificationToken, google_link, link_to, Text, Db, Service, return, query,
  ◌>>=◌, ◌>>◌, Prisma, guard-Outcome, then-Outcome, account_suspended, underage, duplicate_entity,
}
use veervrat_app.Invitations.{link_pending_invitations}
use veervrat_app.Auth.{
  Env, Draw, normalised, meets_minimum_age, minutes, hours, user_of, find_user_by_email,
  find_auth_account, find_email_account_by_address, current_policy_versions,
  release_identity_claims, create_user, clashes, to_session_user, create_user_with_oauth_account,
  create_user_with_email_account, create_verification_token, insert_token,
  invalidate_tokens_by_user_and_type, insert_session, consume_pending_signup, consume_found,
}
use veervrat_app.Auth.Operations.Access.{create_session, new_session}
use veervrat_app.Auth.Operations.Signup.{
  register, register_of_age, register_as, resolve_consents, claim_username, resolve_keys,
  distinct_keys, or_unknown, release_stale, is_deleted,
}
use veervrat_app.Auth.Operations.Google.{
  GoogleProfile, logged_in, link_pending, sign_up, session_for, log_in, ask_to_link, unknown_google,
  without_account, consume_given, deleted_account, with_account, google_user, google_account,
  handle_google_login,
}

-- The users are the same as before, or one of this age is new.
abbrev pub AreGated : Env → (now : ℕ) → List User → List User → Type 0
AreGated env now rows rows' =
    (rows' ≡ rows)
    ⊎ ((u : User) × (dob : ℕ) × (rows' ≡ u ∷ rows)
        × (u.dob ≡ some dob)
        × (meets_minimum_age env dob now ≡ true))

abbrev pub Gated : Env → (now : ℕ) → Db → Db → Type 0
Gated env now db db' = AreGated env now db.users db'.users

module _ (prisma : Prisma) (env : Env) (draw : Draw) where
  Gated-refl : (db : Db) → Gated env draw.now db db
  Gated-refl db = inl refl

  abbrev SameUsers : Db → Db → Type 0
  SameUsers db db' = db'.users ≡ db.users

  same_refl : (db : Db) → SameUsers db db
  same_refl db = refl

  Gated-then :
      {rows rows' rows'' : List User}
      → AreGated env draw.now rows rows'
      → rows'' ≡ rows'
      → AreGated env draw.now rows rows''
  Gated-then (inl e) s = inl (s ∙ e)
  Gated-then (inr (u, dob, e, d, t)) s = inr (u, dob, s ∙ e, d, t)

  insert_session-users : (s : Session) (db : Db) → SameUsers db (insert_session s db).1
  unfolding insert_session
  insert_session-users s db = elim (Bool-cases (some_of (λ x. x.token == s.token) db.sessions)) [
    | inl e ↦ rw e refl
    | inr e ↦ rw e refl
  ]

  insert_token-users : (t : VerificationToken) (db : Db) → SameUsers db (insert_token t db).1
  unfolding insert_token
  insert_token-users t db =
      elim (Bool-cases (some_of (λ x. x.token == t.token) db.verification_tokens)) [
        | inl e ↦ rw e refl
        | inr e ↦ rw e refl
      ]

  create_session-users : (id : ℕ) (db : Db) → SameUsers db (create_session env draw id db).1
  unfolding create_session
  create_session-users id db =
      then-Outcome SameUsers same_refl db (insert_session (new_session env draw id))
        (λ s. return s.token) (λ s db' h. h) (insert_session-users (new_session env draw id) db)

  log_in-users : (u : User) (db : Db) → SameUsers db (log_in prisma env draw u db).1
  log_in-users u db =
      then-Outcome SameUsers same_refl db (session_for prisma env draw u)
        (λ a. return (logged_in a)) (λ a db' h. h)
        (then-Outcome SameUsers same_refl db (create_session env draw u.id)
          (λ session_token. query (to_session_user u) >>= λ user.
            return (record { user = user; session_token = session_token }))
          (λ a db' h. h) (create_session-users u.id db))

  ask_to_link-users :
      (profile : GoogleProfile) (u : User) (db : Db)
      → SameUsers db (ask_to_link prisma env draw profile u db).1
  unfolding invalidate_tokens_by_user_and_type create_verification_token
  ask_to_link-users profile u db =
      let db' = invalidate_tokens_by_user_and_type draw.now u.id google_link db in
      then-Outcome SameUsers same_refl db'
        (create_verification_token draw.token_id u.id draw.token google_link (draw.now + minutes 15)
          (link_to profile.google_id profile.email_verified))
        (λ t. return (link_pending draw.token)) (λ a db'' h. h) (insert_token-users _ db')

  create_user-Gated :
      (u : User) (a : AuthAccount) (dob : ℕ) (consents : List PolicyVersion) (db : Db)
      → u.dob ≡ some dob
      → meets_minimum_age env dob draw.now ≡ true
      → Gated env draw.now db (create_user u a consents db).1
  unfolding create_user link_pending_invitations
  create_user-Gated u a dob consents db e t = elim (Bool-cases (clashes u a db)) [
    | inl c ↦ rw c (inl refl)
    | inr c ↦ rw c (inr (u, dob, refl, e, t))
  ]

  sign_up-Gated :
      (hex : Text) (profile : GoogleProfile) (address : Text) (p : Option PendingSignup) (db : Db)
      → Gated env draw.now db (sign_up prisma env draw hex profile address p db).1
  unfolding create_user_with_oauth_account
  sign_up-Gated hex profile address none db = inl refl
  sign_up-Gated hex profile address (some p) db =
      let name = claim_username prisma env hex p.username db in
      let made =
        create_user_with_oauth_account draw.user_id draw.account_id draw.now address name
          AuthProvider.google profile.google_id p.dob p.consents in
      guard-Outcome (Gated env draw.now) Gated-refl db (meets_minimum_age env p.dob draw.now)
        underage (λ db. (made >>= log_in prisma env draw) db)
        (λ t.
          then-Outcome (Gated env draw.now) Gated-refl db made (log_in prisma env draw)
            (λ u db' g. Gated-then g (log_in-users u db'))
            (create_user-Gated _ _ p.dob p.consents db refl t))

  consumed-Gated :
      (hex : Text) (profile : GoogleProfile) (address : Text) (id : ℕ) (o : Option PendingSignup)
      (db : Db)
      → Gated env draw.now db
          ((consume_found draw.now id o >>= sign_up prisma env draw hex profile address) db).1
  consumed-Gated hex profile address id none db = inl refl
  consumed-Gated hex profile address id (some p) db =
      sign_up-Gated hex profile address (if ltb p.expires_at draw.now then none else some p)
        (record db { pending_signups = delete_one (λ x. x.id == id) db.pending_signups })

  consume-Gated :
      (hex : Text) (profile : GoogleProfile) (address : Text) (pending_id : Option ℕ) (db : Db)
      → Gated env draw.now db
          ((consume_given prisma env draw.now pending_id
              >>= sign_up prisma env draw hex profile address)
            db).1
  unfolding consume_pending_signup
  consume-Gated hex profile address none db = inl refl
  consume-Gated hex profile address (some id) db =
      consumed-Gated hex profile address id (find_in (λ x. x.id == id) db.pending_signups) db

  without_account-Gated :
      (hex : Text) (profile : GoogleProfile) (pending_id : Option ℕ) (db : Db)
      → Gated env draw.now db (without_account prisma env draw hex profile pending_id db).1
  without_account-Gated hex profile pending_id db =
      unknown (find_user_by_email prisma (normalised env profile.email) db)
    where
      unknown :
          (o : Option User)
          → Gated env draw.now db
              (unknown_google prisma env draw hex profile
                (normalised env profile.email)
                pending_id
                o
                db).1
      unknown none = consume-Gated hex profile (normalised env profile.email) pending_id db
      unknown (some u) = inl (ask_to_link-users profile u db)

  deleted-Gated :
      (hex : Text) (profile : GoogleProfile) (pending_id : Option ℕ) (id deleted_at : ℕ) (db : Db)
      → Gated env draw.now db
          (deleted_account prisma env draw hex profile pending_id id deleted_at db).1
  unfolding release_identity_claims
  deleted-Gated hex profile none id deleted_at db = inl refl
  deleted-Gated hex profile (some k) id deleted_at db =
      without_account-Gated hex profile (some k) (release_identity_claims id db)

  user-Gated :
      (hex : Text) (profile : GoogleProfile) (pending_id : Option ℕ) (u : User) (deleted : Option ℕ)
      (db : Db)
      → Gated env draw.now db (with_account prisma env draw hex profile pending_id u deleted db).1
  user-Gated hex profile pending_id u none db =
      guard-Outcome (Gated env draw.now) Gated-refl db (not (is_some u.suspended_at))
        account_suspended (log_in prisma env draw u) (λ _. inl (log_in-users u db))
  user-Gated hex profile pending_id u (some t) db = deleted-Gated hex profile pending_id u.id t db

  google_user-Gated :
      (hex : Text) (profile : GoogleProfile) (pending_id : Option ℕ) (o : Option User) (db : Db)
      → Gated env draw.now db (google_user prisma env draw hex profile pending_id o db).1
  google_user-Gated hex profile pending_id none db = inl refl
  google_user-Gated hex profile pending_id (some u) db =
      user-Gated hex profile pending_id u u.deleted_at db

  google_account-Gated :
      (hex : Text) (profile : GoogleProfile) (pending_id : Option ℕ) (o : Option AuthAccount)
      (db : Db)
      → Gated env draw.now db (google_account prisma env draw hex profile pending_id o db).1
  google_account-Gated hex profile pending_id none db =
      without_account-Gated hex profile pending_id db
  google_account-Gated hex profile pending_id (some a) db =
      google_user-Gated hex profile pending_id (user_of a.user_id db) db

  release-users : (o : Option AuthAccount) (db : Db) → SameUsers db (release_stale o db)
  unfolding release_identity_claims
  release-users none db = refl
  release-users (some a) db = elim (Bool-cases (is_deleted (user_of a.user_id db))) [
    | inl e ↦ rw e refl
    | inr e ↦ rw e refl
  ]

  -- what follows the consents
  abbrev made : Text → Text → Text → ℕ → List PolicyVersion → Service SessionUser
  made address password name dob consents =
      create_user_with_email_account draw.user_id draw.account_id draw.now address name
        (env.hash draw.salt password) dob consents
      >>= λ u.
          create_verification_token draw.token_id u.id draw.token email_verification
            (draw.now + hours 24) no_metadata
          >> query (to_session_user u)

  made-Gated :
      (address password name : Text) (dob : ℕ) (consents : List PolicyVersion) (db : Db)
      → meets_minimum_age env dob draw.now ≡ true
      → Gated env draw.now db (made address password name dob consents db).1
  unfolding create_user_with_email_account create_verification_token
  made-Gated address password name dob consents db t =
      then-Outcome (Gated env draw.now) Gated-refl db
        (create_user_with_email_account draw.user_id draw.account_id draw.now address name
          (env.hash draw.salt password) dob consents)
        (λ u.
          create_verification_token draw.token_id u.id draw.token email_verification
            (draw.now + hours 24) no_metadata
          >> query (to_session_user u))
        (λ u db' g. Gated-then g (
          then-Outcome SameUsers same_refl db'
            (create_verification_token draw.token_id u.id draw.token email_verification
              (draw.now + hours 24) no_metadata)
            (λ _. query (to_session_user u)) (λ _ d h. h) (insert_token-users _ db')))
        (create_user-Gated _ _ dob consents db refl t)

  consented-Gated :
      (address password name : Text) (dob : ℕ) (o : Option (List PolicyVersion)) (db₀ db : Db)
      → SameUsers db₀ db
      → meets_minimum_age env dob draw.now ≡ true
      → Gated env draw.now db₀ ((or_unknown o >>= made address password name dob) db).1
  consented-Gated address password name dob none db₀ db s t = inl s
  consented-Gated address password name dob (some consents) db₀ db s t =
      subst
        (λ rows. AreGated env draw.now rows (made address password name dob consents db).1.users) s
        (made-Gated address password name dob consents db t)

  -- Signing up with a password or signing in with Google, answered or refused, leaves the users as
  -- they were, or adds one user, of the minimum age by the clock of that request.
  pub register-Gated :
      (raw_email password name hex : Text) (dob : ℕ) (claimed : List PolicyVersion)
      (profile : GoogleProfile) (pending_id : Option ℕ) (db : Db)
      → Gated env draw.now db (register prisma env draw raw_email password name dob claimed db).1
        × Gated env draw.now db (handle_google_login prisma env draw hex profile pending_id db).1
  unfolding register handle_google_login resolve_consents
  register-Gated raw_email password name hex dob claimed profile pending_id db = (
    guard-Outcome (Gated env draw.now) Gated-refl db (meets_minimum_age env dob draw.now) underage
        (register_of_age prisma env draw (normalised env raw_email) password name dob claimed)
        (λ t.
          guard-Outcome (Gated env draw.now) Gated-refl db
            (not (is_some (find_user_by_email prisma (normalised env raw_email) db)))
            duplicate_entity
            (register_as prisma env draw (normalised env raw_email) password name dob claimed)
            (λ _.
              let stale = find_email_account_by_address (normalised env raw_email) db in
              let released = release_stale stale db in
              consented-Gated (normalised env raw_email) password name dob
                (resolve_keys (distinct_keys claimed)
                  (current_policy_versions (distinct_keys claimed) released))
                db released (release-users stale db) t)),
    google_account-Gated hex profile pending_id
        (find_auth_account AuthProvider.google profile.google_id db) db,
  )
