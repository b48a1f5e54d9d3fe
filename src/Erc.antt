-- ===== src/Erc.antt =====
-- apps/api/src/modules/erc: the exposures, resolutions and challenges of a journey. `Pool`, `Items`,
-- `Custom` and `Notes` are erc.repository.ts, whose three tables are one table of items with a kind,
-- `Streaks` is resolution-checkins.repository.ts; `Operations` is erc.service.ts, `Checkins` is
-- resolution-checkins.service.ts.
mod Pool
mod Notes
mod Items
mod Custom
mod Streaks
pub mod Operations
pub mod Moves
pub mod Refines
pub mod Steps
pub mod Requests
pub mod Checkins
pub mod Sidenotes
pub mod Tests
unfoldable pub use Pool.*
unfoldable pub use Notes.*
unfoldable pub use Items.*
unfoldable pub use Custom.*
unfoldable pub use Streaks.*
