-- ===== src/Auth.antt =====
-- apps/api/src/modules/auth. `Accounts`, `SessionRows`, `Tokens` and `Signups` are
-- auth.repository.ts; `Outside` is what
-- auth.service.ts takes from outside, with common/age/age.ts; `Lockouts` is its account lockout;
-- `Operations` is its requests.
mod Outside
mod Accounts
mod SessionRows
mod Tokens
mod Signups
mod Lockouts
pub mod Operations
pub mod Methods
pub mod Consenting
pub mod Renewal
pub mod Names
pub mod Sessions
pub mod Reset
pub mod Attempts
pub mod Gate
pub mod Tests
unfoldable pub use Outside.*
unfoldable pub use Accounts.*
unfoldable pub use SessionRows.*
unfoldable pub use Tokens.*
unfoldable pub use Signups.*
unfoldable pub use Lockouts.*
