-- ===== src/Auth/Lockouts.antt =====
-- The lockout of auth.service.ts after failed logins. The commands of Redis act on the hash of an
-- address; a hash is gone once its time to live is over. Failures of Redis are left out.
use veervrat_app.Base.{
  ℕ, ◌+◌, ◌-◌, ◌*◌, Bool, true, false, ◌&&◌, not, Option, none, some, ◌∷◌, ltb, leb, filter_by,
  find_in, if◌then◌else◌,
}
use Prim.Native.Nat.{◌/◌}
use veervrat_app.Model.{Lockout, Text, text_eq, Db}

abbrev pub lockout_max_failures : ℕ
lockout_max_failures = 10

abbrev pub lockout_window_seconds : ℕ
lockout_window_seconds = 3600

abbrev pub lockout_duration_seconds : ℕ
lockout_duration_seconds = 900

abbrev pub is_live : (now : ℕ) → Text → Lockout → Bool
is_live now address l = text_eq l.email address && ltb now l.expires_at

unfoldable pub find_lockout : (now : ℕ) → Text → Db → Option Lockout
find_lockout now address db = find_in (is_live now address) db.lockouts

pub record LockState : Type 0 where
  pub locked : Bool
  pub seconds_remaining : ℕ

abbrev pub unlocked : LockState
unlocked = record { locked = false; seconds_remaining = 0 }

-- `Math.ceil(ms / 1000)`
abbrev pub ceil_seconds : ℕ → ℕ
ceil_seconds ms = (ms + 999) / 1000

abbrev pub lock_state : (now : ℕ) → Option ℕ → LockState
lock_state now none = unlocked
lock_state now (some until) =
    if ltb now until
    then record { locked = true; seconds_remaining = ceil_seconds (until - now) }
    else unlocked

abbrev pub locked_until_of : Option Lockout → Option ℕ
locked_until_of none = none
locked_until_of (some l) = l.locked_until

abbrev pub failures_of : Option Lockout → ℕ
failures_of none = 0
failures_of (some l) = l.failures

unfoldable pub check_lockout : (now : ℕ) → Text → Db → LockState
check_lockout now address db = lock_state now (locked_until_of (find_lockout now address db))

unfoldable pub clear_lockout : Text → Db → Db
clear_lockout address db = record db {
  lockouts = filter_by (λ l. not (text_eq l.email address)) db.lockouts;
}

-- the hash after one failure more
abbrev pub failed_row : (now : ℕ) → Text → Option Lockout → Lockout
failed_row now address old =
    let failures = failures_of old + 1 in
    if leb lockout_max_failures failures
    then record {
      email = address;
      failures = failures;
      locked_until = some (now + lockout_duration_seconds * 1000);
      expires_at = now + lockout_duration_seconds * 1000;
    }
    else record {
      email = address;
      failures = failures;
      locked_until = locked_until_of old;
      expires_at = now + lockout_window_seconds * 1000;
    }

unfoldable pub record_failed_login : (now : ℕ) → Text → Db → Db
record_failed_login now address db = record db {
  lockouts =
      failed_row now address (find_lockout now address db)
      ∷ filter_by (λ l. not (text_eq l.email address)) db.lockouts;
}
