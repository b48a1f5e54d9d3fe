-- ===== src/Model.antt =====
-- The data that the services share: the enumerations and tables of prisma/schema.prisma, the
-- exceptions of common/exceptions, the database state, and a service call as a state and
-- exception monad over it.
mod Enums
mod Texts
mod Logins
mod Rows
mod Errors
mod Monad
mod Queries
mod Outcomes
pub use Enums.*
unfoldable pub use Texts.*
pub use Logins.*
pub use Rows.*
pub use Errors.*
pub use Monad.*
pub use Queries.*
pub use Outcomes.*
