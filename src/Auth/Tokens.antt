-- ===== src/Auth/Tokens.antt =====
-- The single-use tokens of auth.repository.ts.
use veervrat_app.Base.{
  ℕ, Bool, ◌&&◌, not, Option, none, some, ◌∷◌, ◌==◌, is_some, some_of, find_in, update_one,
  update_where, if◌then◌else◌,
}
use veervrat_app.Model.{
  VerificationType, verification_type_eq, TokenMetadata, VerificationToken, Db, Service, throw,
  return, record_not_found, unique_violation, Prisma,
}

-- The column `token` is unique.
unfoldable pub insert_token : VerificationToken → Service VerificationToken
insert_token row db =
    if some_of (λ t. t.token == row.token) db.verification_tokens
    then throw unique_violation db
    else return row (record db { verification_tokens = row ∷ db.verification_tokens })

unfoldable pub create_verification_token :
    (fresh user_id token : ℕ)
    → VerificationType
    → (expires_at : ℕ) → TokenMetadata
    → Service VerificationToken
create_verification_token fresh user_id token type expires_at metadata = insert_token (record {
  id = fresh;
  user_id = user_id;
  token = token;
  type = type;
  expires_at = expires_at;
  used_at = none;
  metadata = metadata;
})

abbrev pub used : ℕ → VerificationToken → VerificationToken
used now t = record t { used_at = some now }

abbrev pub mark_used_found : (now id : ℕ) → Option VerificationToken → Service VerificationToken
mark_used_found now id none db = throw record_not_found db
mark_used_found now id (some t) db = return (used now t) (record db {
  verification_tokens = update_one (λ x. x.id == id) (used now) db.verification_tokens;
})

unfoldable pub mark_token_used : (now id : ℕ) → Service VerificationToken
mark_token_used now id db =
    mark_used_found now id (find_in (λ x. x.id == id) db.verification_tokens) db

-- not yet used
abbrev pub is_usable : ℕ → VerificationType → VerificationToken → Bool
is_usable user_id type t =
    t.user_id == user_id && verification_type_eq t.type type && not (is_some t.used_at)

unfoldable pub invalidate_tokens_by_user_and_type : (now user_id : ℕ) → VerificationType → Db → Db
invalidate_tokens_by_user_and_type now user_id type db = record db {
  verification_tokens = update_where (is_usable user_id type) (used now) db.verification_tokens;
}

abbrev pub matches : ℕ → VerificationType → VerificationToken → Bool
matches token type t =
    t.token == token && verification_type_eq t.type type && not (is_some t.used_at)

module _ (prisma : Prisma) where
  unfoldable pub find_verification_token : ℕ → VerificationType → Db → Option VerificationToken
  find_verification_token token type db =
      prisma.find_first (matches token type) db.verification_tokens
