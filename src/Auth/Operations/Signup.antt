-- ===== src/Auth/Operations/Signup.antt =====
-- Signing up: `resolveConsents`, `register`, `startGoogleSignup` and `claimUsername`.
use veervrat_app.Base.{
  ℕ, ◌+◌, Bool, false, not, Option, none, some, List, [], ◌∷◌, ◌++◌, take, ltb, is_some, find_in,
  filter_by, if◌then◌else◌,
}
use Prim.Native.Nat.{◌/◌, ◌%◌, zero, suc}
use veervrat_app.Model.{
  User, SessionUser, email_verification, no_metadata, PolicyVersion, AuthAccount, Text, text_eq, Db,
  Service, throw, return, query, require, modify, ◌>>=◌, ◌>>◌, underage, duplicate_entity,
  validation, Prisma,
}
use veervrat_app.Auth.{
  Env, Draw, hours, minutes, normalised, meets_minimum_age, user_of, to_session_user,
  find_user_by_email, find_user_named, find_email_account_by_address, release_identity_claims,
  create_user_with_email_account, create_verification_token, current_policy_versions,
  create_pending_signup,
}

-- `[...new Set(claimed.map((c) => c.documentKey))]`
abbrev pub distinct_keys : List PolicyVersion → List Text
distinct_keys [] = []
distinct_keys (c ∷ claimed) =
    c.document_key ∷ filter_by (λ k. not (text_eq k c.document_key)) (distinct_keys claimed)

abbrev pub add_resolved :
    Text → Option PolicyVersion → Option (List PolicyVersion) → Option (List PolicyVersion)
add_resolved key (some p) (some rest) =
    some (record { document_key = key; version = p.version } ∷ rest)
add_resolved key _ _ = none

abbrev pub resolve_keys : List Text → List PolicyVersion → Option (List PolicyVersion)
resolve_keys [] live = some []
resolve_keys (k ∷ keys) live =
    add_resolved k (find_in (λ p. text_eq p.document_key k) live) (resolve_keys keys live)

abbrev pub or_unknown : Option (List PolicyVersion) → Service (List PolicyVersion)
or_unknown none = throw validation
or_unknown (some consents) = return consents

-- The versions come from the published documents, whatever the client claims.
unfoldable pub resolve_consents : List PolicyVersion → Service (List PolicyVersion)
resolve_consents claimed db =
    let keys = distinct_keys claimed in
    or_unknown (resolve_keys keys (current_policy_versions keys db)) db

abbrev pub is_deleted : Option User → Bool
is_deleted none = false
is_deleted (some u) = is_some u.deleted_at

-- `if (staleClaim?.user.deletedAt) releaseIdentityClaims(...)`
abbrev pub release_stale : Option AuthAccount → Db → Db
release_stale none db = db
release_stale (some a) db =
    if is_deleted (user_of a.user_id db) then release_identity_claims a.user_id db else db

-- `String(n)` of a number below 100
abbrev pub decimal : ℕ → Text
decimal n = if ltb n 10 then (48 + n) ∷ [] else (48 + n / 10) ∷ (48 + n % 10) ∷ []

-- `${chosen.slice(0, 25)}_${n}`
abbrev pub variant : Text → ℕ → Text
variant chosen n = take 25 chosen ++ 95 ∷ decimal n

module _ (prisma : Prisma) (env : Env) where
  -- `findUserByUsername`
  unfoldable pub find_user_by_username : Text → Db → Option User
  find_user_by_username name db = find_user_named prisma (env.lower name) db

  abbrev pub is_free : Text → Db → Bool
  is_free name db = not (is_some (find_user_by_username name db))

  -- the loop from `n` on, with `rounds` rounds left
  unfoldable pub try_variants : (rounds n : ℕ) → Text → Db → Option Text
  try_variants zero n chosen db = none
  try_variants (suc rounds) n chosen db =
      let rest = try_variants rounds (n + 1) chosen db in
      if is_free (variant chosen n) db then some (variant chosen n) else rest

  -- `hex` is three random bytes in hexadecimal
  abbrev pub or_random : (hex chosen : Text) → Option Text → Text
  or_random hex chosen none = take 22 chosen ++ 95 ∷ hex
  or_random hex chosen (some candidate) = candidate

  unfoldable pub claim_username : (hex chosen : Text) → Db → Text
  claim_username hex chosen db =
      if is_free chosen db then chosen else or_random hex chosen (try_variants 98 2 chosen db)

  -- after the checks; `address` is in its canonical form
  abbrev pub register_as :
      Draw → (address password name : Text) → (dob : ℕ) → List PolicyVersion → Service SessionUser
  register_as draw address password name dob claimed = do
    modify (λ db. release_stale (find_email_account_by_address address db) db)
    consents ← resolve_consents claimed
    u ←
        create_user_with_email_account draw.user_id draw.account_id draw.now address name
          (env.hash draw.salt password) dob consents
    create_verification_token draw.token_id u.id draw.token email_verification (draw.now + hours 24)
        no_metadata
    query (to_session_user u)

  abbrev pub register_of_age :
      Draw → (address password name : Text) → (dob : ℕ) → List PolicyVersion → Service SessionUser
  register_of_age draw address password name dob claimed db =
      (require (not (is_some (find_user_by_email prisma address db))) duplicate_entity
          >> register_as draw address password name dob claimed)
        db

  unfoldable pub register :
      Draw → (raw_email password name : Text) → (dob : ℕ) → List PolicyVersion → Service SessionUser
  register draw raw_email password name dob claimed =
      require (meets_minimum_age env dob draw.now) underage
      >> register_of_age draw (normalised env raw_email) password name dob claimed

  -- It answers with the id of the pending signup.
  unfoldable pub start_google_signup : Draw → Text → (dob : ℕ) → List PolicyVersion → Service ℕ
  start_google_signup draw name dob claimed = do
    require (meets_minimum_age env dob draw.now) underage
    taken ← query (find_user_by_username name)
    require (not (is_some taken)) duplicate_entity
    consents ← resolve_consents claimed
    pending ← create_pending_signup draw.token_id name dob consents (draw.now + minutes 15)
    return pending.id
