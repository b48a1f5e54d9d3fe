-- ===== src/Auth/Outside.antt =====
-- What auth.service.ts takes from outside the repository, and common/age/age.ts.
use veervrat_app.Base.{ℕ, ◌*◌, ◌-◌, ◌≡◌, ◌≢◌, [], Bool, true, leb}
use veervrat_app.Model.{Text}
use veervrat_app.Tiptap.PlainText.{trim_start, trim_end}

-- bcrypt, `toLowerCase`, the order of `localeCompare`, and the UTC calendar of JavaScript's dates.
-- A date of birth counts, as every date, from one instant before them all.
-- What the code relies on: a password passes the comparison with its own hash, and no hash is empty.
pub record Env : Type 0 where
  pub hash : (salt : ℕ) → (password : Text) → Text
  pub compare : (password hashed : Text) → Bool
  pub compare-hash : (salt : ℕ) (password : Text) → compare password (hash salt password) ≡ true
  pub hash-nonempty : (salt : ℕ) (password : Text) → hash salt password ≢ []
  pub lower : Text → Text
  pub locale_le : Text → Text → Bool
  pub utc_full_year : ℕ → ℕ
  pub utc_month : ℕ → ℕ
  pub utc_date : ℕ → ℕ
  pub utc : (year month day : ℕ) → ℕ
  pub session_ttl_days : ℕ

-- What one call makes anew: the time of its clock, the ids of the rows it inserts, its random
-- tokens and salt.
pub record Draw : Type 0 where
  pub now : ℕ
  pub user_id : ℕ
  pub account_id : ℕ
  pub token_id : ℕ
  pub token : ℕ
  pub session_id : ℕ
  pub session_token : ℕ
  pub salt : ℕ

abbrev pub days : ℕ → ℕ
days n = n * 86400000

abbrev pub hours : ℕ → ℕ
hours n = n * 3600000

abbrev pub minutes : ℕ → ℕ
minutes n = n * 60 * 1000

abbrev pub minimum_age_years : ℕ
minimum_age_years = 18

module _ (env : Env) where
  -- `s.trim().toLowerCase()`
  abbrev pub normalised : Text → Text
  normalised t = env.lower (trim_end (trim_start t))

  abbrev pub latest_qualifying_dob : (now : ℕ) → ℕ
  latest_qualifying_dob now =
      env.utc (env.utc_full_year now - minimum_age_years) (env.utc_month now) (env.utc_date now)

  unfoldable pub meets_minimum_age : (dob now : ℕ) → Bool
  meets_minimum_age dob now =
      leb (env.utc (env.utc_full_year dob) (env.utc_month dob) (env.utc_date dob))
        (latest_qualifying_dob now)
