-- ===== src/Erc/Operations.antt =====
-- apps/api/src/modules/erc/erc.service.ts. `now` is the clock of the call, and `fresh` the id that
-- the database gives a new row.
mod Access
mod Status
mod Suggestions
mod Custom
unfoldable pub use Access.*
unfoldable pub use Status.*
unfoldable pub use Suggestions.*
unfoldable pub use Custom.*
