-- ===== src/Erc/Steps.antt =====
-- Each request of erc.service.ts as a step of the table of items.
mod Status
mod Custom
mod Suggestions
pub use Status.*
pub use Custom.*
pub use Suggestions.*
