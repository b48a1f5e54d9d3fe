-- ===== src/Auth/Reset.antt =====
-- A reset of a password: the new one works, the token does not work again, and every session ends.
use veervrat_app.Base.{
  ℕ, ◌≤◌, ◌≡◌, ◌≢◌, refl, inl, inr, true, false, not, none, some, List, [], ◌∷◌, ◌==◌, filter_by,
  update_one, All, All-In, find_in-eq-some, find_in-update_one, IsKeyed, keyed-find,
  only-update_one, ◌⊎◌, arith, Option-cases,
}
use veervrat_app.Model.{
  User, AuthProvider, AuthAccount, Session, password_reset, VerificationToken, Text, Db, ok, Prisma,
}
use veervrat_app.Auth.{
  Env, Draw, user_of, is_of, with_hash, used, find_email_account_by_user_id,
  find_verification_token, update_password_hash, mark_token_used, mark_email_verified, save_user,
  delete_all_user_sessions, verified,
}
use veervrat_app.Invitations.Operations.{truthy}
use veervrat_app.Auth.Operations.Access.{verify_password}
use veervrat_app.Auth.Operations.Recovery.{reset_password}

-- The token may be used now, by a user with one account that has a password.
pub record IsResettable (prisma : Prisma) (now token : ℕ) (db : Db) (t : VerificationToken)
    (u : User) (a : AuthAccount) : Type 0 where
  pub found : find_verification_token prisma token password_reset db ≡ some t
  pub unexpired : now ≤ t.expires_at
  pub user : user_of t.user_id db ≡ some u
  pub account : find_email_account_by_user_id prisma t.user_id db ≡ some a
  pub only :
      All
        (λ (x : AuthAccount). is_of t.user_id AuthProvider.email x ≡ true → x ≡ a)
        db.auth_accounts
  pub tokens : All (λ (x : VerificationToken). x.token ≡ token → x ≡ t) db.verification_tokens
  pub accounts_keyed : IsKeyed (λ (x : AuthAccount). x.id) db.auth_accounts
  pub tokens_keyed : IsKeyed (λ (x : VerificationToken). x.id) db.verification_tokens

module _ (prisma : Prisma) (env : Env) (draw : Draw) (token : ℕ) (new_password : Text)
    (db : Db) where
  -- what a reset leaves
  abbrev reset : VerificationToken → AuthAccount → Db
  reset t a = record db {
    auth_accounts =
        update_one (λ x. x.id == a.id) (with_hash (env.hash draw.salt new_password))
          db.auth_accounts;
    verification_tokens = update_one (λ x. x.id == t.id) (used draw.now) db.verification_tokens;
    users = update_one (λ x. x.id == t.user_id) (verified draw.now) db.users;
    sessions = filter_by (λ s. not (s.user_id == t.user_id)) db.sessions;
  }

  reset_password-eq :
      (t : VerificationToken) (u : User) (a : AuthAccount)
      → IsResettable prisma draw.now token db t u a
      → reset_password prisma env draw token new_password db ≡ (ok tt, reset t a)
  unfolding reset_password update_password_hash mark_token_used mark_email_verified save_user
      delete_all_user_sessions find_email_account_by_user_id find_verification_token
  reset_password-eq t u a r =
      let found_t = prisma.find_first-eq-some _ db.verification_tokens t r.found in
      let found_a = prisma.find_first-eq-some _ db.auth_accounts a r.account in
      let kt =
        keyed-find (λ (x : VerificationToken). x.id) db.verification_tokens t r.tokens_keyed
          found_t.0 in
      let ka =
        keyed-find (λ (x : AuthAccount). x.id) db.auth_accounts a r.accounts_keyed found_a.0 in
      ground (arith, r.found, r.unexpired, r.user, r.account, kt, ka)

  reset_account :
      (t : VerificationToken) (u : User) (a : AuthAccount)
      → IsResettable prisma draw.now token db t u a
      → (x : AuthAccount) → find_email_account_by_user_id prisma t.user_id (reset t a) ≡ some x
      → x ≡ with_hash (env.hash draw.salt new_password) a
  unfolding find_email_account_by_user_id
  reset_account t u a r x e =
      let found_a = prisma.find_first-eq-some _ db.auth_accounts a r.account in
      let ka =
        keyed-find (λ (x : AuthAccount). x.id) db.auth_accounts a r.accounts_keyed found_a.0 in
      let hash = with_hash (env.hash draw.salt new_password) in
      let found_x =
        prisma.find_first-eq-some _ (update_one (λ x. x.id == a.id) hash db.auth_accounts) x e in
      elim (All-In
        (λ (y : AuthAccount). (y ≡ hash a) ⊎ (is_of t.user_id AuthProvider.email y ≡ true → ⊥))
        (update_one (λ x. x.id == a.id) hash db.auth_accounts) x
        (only-update_one (λ (y : AuthAccount). y.id)
          (λ y. is_of t.user_id AuthProvider.email y ≡ true) hash db.auth_accounts a r.only
          r.accounts_keyed ka)
        found_x.0) [ inl s ↦ s | inr n ↦ absurd (n found_x.1) ]

  reset_found :
      (t : VerificationToken) (u : User) (a : AuthAccount)
      → IsResettable prisma draw.now token db t u a
      → find_email_account_by_user_id prisma t.user_id (reset t a) ≢ none
  unfolding find_email_account_by_user_id
  reset_found t u a r e =
      let found_a = prisma.find_first-eq-some _ db.auth_accounts a r.account in
      let ka =
        keyed-find (λ (x : AuthAccount). x.id) db.auth_accounts a r.accounts_keyed found_a.0 in
      let hash = with_hash (env.hash draw.salt new_password) in
      let found_x =
        find_in-eq-some (λ x. x.id == a.id) (update_one (λ x. x.id == a.id) hash db.auth_accounts)
          (hash a)
          (find_in-update_one (λ x. x.id == a.id) hash db.auth_accounts a ka (ground arith)) in
      let no =
        All-In (λ (y : AuthAccount). is_of t.user_id AuthProvider.email y ≡ false)
          (update_one (λ x. x.id == a.id) hash db.auth_accounts) (hash a)
          (prisma.find_first-eq-none _ _ e) found_x.0 in
      absurd (ground (arith, no, found_a.1))

  reset_token :
      (t : VerificationToken) (u : User) (a : AuthAccount)
      → IsResettable prisma draw.now token db t u a
      → (x : VerificationToken)
      → find_verification_token prisma token password_reset (reset t a) ≢ some x
  unfolding find_verification_token
  reset_token t u a r x e =
      let found_t = prisma.find_first-eq-some _ db.verification_tokens t r.found in
      let kt =
        keyed-find (λ (x : VerificationToken). x.id) db.verification_tokens t r.tokens_keyed
          found_t.0 in
      let found_x =
        prisma.find_first-eq-some _
          (update_one (λ x. x.id == t.id) (used draw.now) db.verification_tokens) x e in
      elim (All-In (λ (y : VerificationToken). (y ≡ used draw.now t) ⊎ (y.token ≡ token → ⊥))
        (update_one (λ x. x.id == t.id) (used draw.now) db.verification_tokens) x
        (only-update_one (λ (y : VerificationToken). y.id) (λ y. y.token ≡ token) (used draw.now)
          db.verification_tokens t r.tokens r.tokens_keyed kt)
        found_x.0) [
          | inl s ↦ absurd (ground (arith, s, found_x.1))
          | inr n ↦ n (ground (arith, found_x.1))
        ]

  sessions-ended :
      (user_id : ℕ) (rows : List Session)
      → All
          (λ (s : Session). s.user_id ≢ user_id)
          (filter_by (λ s. not (s.user_id == user_id)) rows)
  unfolding filter_by
  sessions-ended user_id [] = tt
  sessions-ended user_id (s ∷ rows) = ground (arith, sessions-ended user_id rows)

  hash-truthy :
      (salt : ℕ) (password : Text)
      → truthy (some (env.hash salt password)) ≡ some (env.hash salt password)
  hash-truthy salt password = nonempty (env.hash salt password) (env.hash-nonempty salt password)
    where
      nonempty : (t : Text) → t ≢ [] → truthy (some t) ≡ some t
      nonempty [] n = absurd (n refl)
      nonempty (c ∷ t) n = refl

  -- A reset with a token that may be used, by a user with one account that has a password, is
  -- answered; then the new password is the user's password, the token does not work again, and no
  -- session of the user is left.
  pub reset_password-verify_password :
      (t : VerificationToken) (u : User) (a : AuthAccount)
      → IsResettable prisma draw.now token db t u a
      → let (answer, db') = reset_password prisma env draw token new_password db in
        (answer ≡ ok tt)
        × (verify_password prisma env t.user_id new_password db' ≡ true)
        × (find_verification_token prisma token password_reset db' ≡ none)
        × All (λ (s : Session). s.user_id ≢ t.user_id) db'.sessions
  unfolding verify_password
  reset_password-verify_password t u a r =
      let after = reset t a in
      rw (reset_password-eq t u a r) (
        refl,
        elim (Option-cases (find_email_account_by_user_id prisma t.user_id after)) [
          | inl e ↦ absurd (reset_found t u a r e)
          | inr (x, e) ↦ ground (
            arith,
            e,
            reset_account t u a r x e,
            hash-truthy draw.salt new_password,
            env.compare-hash draw.salt new_password,
          )
        ],
        elim (Option-cases (find_verification_token prisma token password_reset after)) [
          | inl e ↦ e
          | inr (x, e) ↦ absurd (reset_token t u a r x e)
        ],
        sessions-ended t.user_id db.sessions,
      )
