-- ===== src/Db/Sql.antt =====
-- The queries of internal/db on a table: their clauses, and the laws of these.
mod Clauses
mod First
mod Counts
mod Rows
unfoldable pub use Clauses.*
pub use First.*
pub use Counts.*
pub use Rows.*
