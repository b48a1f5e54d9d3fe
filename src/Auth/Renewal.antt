-- ===== src/Auth/Renewal.antt =====
-- Renewed tokens: of one kind, a person has one that works.
use veervrat_app.Base.{ℕ, ◌≡◌, refl, some, List, [], ◌∷◌, count_of, update_where, arith}
use veervrat_app.Model.{
  User, VerificationType, password_reset, VerificationToken, Db, ok, Prisma, Text,
}
use veervrat_app.Auth.{
  Env, Draw, normalised, find_user_by_email, is_usable, used, invalidate_tokens_by_user_and_type,
  create_verification_token, insert_token,
}
use veervrat_app.Auth.Operations.Recovery.{ForgotPasswordOutcome, forgot_password}

count-invalidated :
    (now user_id : ℕ) (type : VerificationType) (rows : List VerificationToken)
    → count_of (is_usable user_id type) (update_where (is_usable user_id type) (used now) rows) ≡ 0
unfolding count_of update_where
count-invalidated now user_id type [] = refl
count-invalidated now user_id type (t ∷ rows) =
    ground (arith, count-invalidated now user_id type rows)

-- Whoever asks for a new password, with an address that has an account, and is answered, has
-- exactly one token for it that works, however many there were before.
pub forgot_password-count :
    (prisma : Prisma) (env : Env) (draw : Draw) (raw_email : Text) (u : User)
    (answer : ForgotPasswordOutcome) (db : Db)
    → find_user_by_email prisma (normalised env raw_email) db ≡ some u
    → (forgot_password prisma env draw raw_email db).0 ≡ ok answer
    → count_of
        (is_usable u.id password_reset)
        (forgot_password prisma env draw raw_email db).1.verification_tokens
      ≡ 1
unfolding forgot_password invalidate_tokens_by_user_and_type create_verification_token insert_token
    count_of
forgot_password-count prisma env draw raw_email u answer db f h =
    ground (arith, f, h, count-invalidated draw.now u.id password_reset db.verification_tokens)
