-- ===== src/Model/Logins.antt =====
-- The tables behind a login: accounts, sessions, tokens, signups and consents of
-- prisma/schema.prisma, and the hashes of failed logins that the code keeps in Redis.
use veervrat_app.Base.{ℕ, Bool, true, false, Option, List}
use veervrat_app.Model.Texts.{Text}

pub data AuthProvider : Type 0 where
  email google : AuthProvider

abbrev pub is_email : AuthProvider → Bool
is_email AuthProvider.email = true
is_email AuthProvider.google = false

abbrev pub provider_eq : AuthProvider → AuthProvider → Bool
provider_eq AuthProvider.email AuthProvider.email = true
provider_eq AuthProvider.google AuthProvider.google = true
provider_eq _ _ = false

pub record AuthAccount : Type 0 where
  pub id : ℕ
  pub user_id : ℕ
  pub provider : AuthProvider
  pub provider_account_id : Text
  pub password_hash : Option Text

pub record Session : Type 0 where
  pub id : ℕ
  pub user_id : ℕ
  pub token : ℕ
  pub expires_at : ℕ
  pub last_active_at : ℕ
  pub reauthenticated_at : Option ℕ

pub data VerificationType : Type 0 where
  email_verification password_reset google_link email_change : VerificationType

abbrev pub verification_type_eq : VerificationType → VerificationType → Bool
verification_type_eq email_verification email_verification = true
verification_type_eq password_reset password_reset = true
verification_type_eq google_link google_link = true
verification_type_eq email_change email_change = true
verification_type_eq _ _ = false

-- The column `metadata`, as far as the code reads it.
pub data TokenMetadata : Type 0 where
  no_metadata : TokenMetadata
  link_to : (google_id : Text) → (email_verified : Bool) → TokenMetadata
  change_to : (new_email : Text) → TokenMetadata

pub record VerificationToken : Type 0 where
  pub id : ℕ
  pub user_id : ℕ
  pub token : ℕ
  pub type : VerificationType
  pub expires_at : ℕ
  pub used_at : Option ℕ
  pub metadata : TokenMetadata

-- a policy document at a version, as a page of `cms_pages` has it and a consent names it
pub record PolicyVersion : Type 0 where
  pub document_key : Text
  pub version : ℕ

pub record UserConsent : Type 0 where
  pub user_id : ℕ
  pub document_key : Text
  pub version : ℕ

pub record PendingSignup : Type 0 where
  pub id : ℕ
  pub username : Text
  pub dob : ℕ
  pub consents : List PolicyVersion
  pub expires_at : ℕ

-- The hash `lockout:<email>` of Redis, which is gone from the time `expires_at` on.
pub record Lockout : Type 0 where
  pub email : Text
  pub failures : ℕ
  pub locked_until : Option ℕ
  pub expires_at : ℕ
