-- ===== src/Auth/Methods.antt =====
-- The ways to sign in that a disconnection leaves, and the proof that a sensitive action uses up.
use veervrat_app.Base.{
  ℕ, ◌-◌, ◌≡◌, ◌<◌, ◌≤◌, Option-cases, refl, inl, inr, Bool, true, ◌&&◌, not, none, List, [], ◌∷◌,
  ◌==◌, some_of, filter_by, find_in, count_of, delete_one, update_where, arith,
}
use veervrat_app.Model.{
  AuthProvider, provider_eq, AuthAccount, Session, Db, ok, err, reauthentication_required, Prisma,
}
use veervrat_app.Auth.{
  Env, list_auth_accounts, delete_auth_account, has_proof, consume_session_reauthentication,
}
use veervrat_app.Auth.Operations.Settings.{
  is_login_method, disconnect_account, assert_recently_authenticated,
}

-- another account of the user that can sign in
abbrev is_other : ℕ → ℕ → AuthAccount → Bool
is_other user_id id a = a.user_id == user_id && (not (a.id == id) && is_login_method a)

count-filter :
    (user_id id : ℕ) (rows : List AuthAccount)
    → count_of
        (λ a. not (a.id == id) && is_login_method a)
        (filter_by (λ a. a.user_id == user_id) rows)
      ≡ count_of (is_other user_id id) rows
unfolding count_of filter_by
count-filter user_id id [] = refl
count-filter user_id id (a ∷ rows) = ground (arith, count-filter user_id id rows)

kept-some :
    (user_id id : ℕ) (rows : List AuthAccount)
    → 0 < count_of (is_other user_id id) rows
    → some_of is_login_method (filter_by (λ a. a.user_id == user_id) rows) ≡ true
unfolding count_of filter_by some_of
kept-some user_id id [] h = absurd (omega (arith, h))
kept-some user_id id (a ∷ rows) h = ground (arith, kept-some user_id id rows, h)

left-some :
    (user_id id : ℕ) (rows : List AuthAccount)
    → 0 < count_of (is_other user_id id) rows
    → some_of is_login_method
        (filter_by (λ a. a.user_id == user_id) (delete_one (λ x. x.id == id) rows))
      ≡ true
unfolding count_of filter_by some_of delete_one
left-some user_id id [] h = absurd (omega (arith, h))
left-some user_id id (a ∷ rows) h =
    ground (arith, left-some user_id id rows, kept-some user_id id rows, h)

-- Whoever disconnects a way to sign in, and is not refused, has another one left: an account with
-- a password, or with another provider.
pub disconnect_account-is_login_method :
    (user_id : ℕ) (provider : AuthProvider) (db : Db)
    → let (answer, db') = disconnect_account user_id provider db in
      answer ≡ ok tt → some_of is_login_method (list_auth_accounts user_id db') ≡ true
unfolding disconnect_account list_auth_accounts delete_auth_account
disconnect_account-is_login_method user_id provider db h =
    elim (Option-cases (
      find_in (λ a. provider_eq a.provider provider)
        (filter_by (λ a. a.user_id == user_id) db.auth_accounts))) [
          | inl e ↦ ground (arith, h, e)
          | inr (x, e) ↦ ground (
            arith,
            h,
            e,
            left-some user_id x.id db.auth_accounts,
            count-filter user_id x.id db.auth_accounts,
          )
        ]

proofs-spent :
    (id not_before later : ℕ) (rows : List Session)
    → not_before ≤ later
    → count_of
        (has_proof id later)
        (update_where (has_proof id not_before) (λ s. record s { reauthenticated_at = none }) rows)
      ≡ 0
unfolding count_of update_where
proofs-spent id not_before later [] o = refl
proofs-spent id not_before later (s ∷ rows) o =
    ground (arith, o, proofs-spent id not_before later rows)

-- A proof by Google is used up: once an action without a password was let through, the next one
-- of the same session that has no password is refused, and the user is asked to prove it again.
pub assert_recently_authenticated-once :
    (prisma : Prisma) (env : Env) (now later user_id user_id' session_id : ℕ) (db : Db)
    → now ≤ later
    → let (answer, db') = assert_recently_authenticated prisma env now user_id session_id none db in
      answer ≡ ok tt
      → (assert_recently_authenticated prisma env later user_id' session_id none db').0
        ≡ err reauthentication_required
unfolding assert_recently_authenticated consume_session_reauthentication
assert_recently_authenticated-once prisma env now later user_id user_id' session_id db o h =
    ground (
      arith,
      o,
      h,
      proofs-spent session_id (now - 600000) (later - 600000) db.sessions (omega (arith, o)),
    )
