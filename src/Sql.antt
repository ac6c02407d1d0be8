-- ===== src/Sql.antt =====
-- The statements of SQL that internal/store/*.go sends, over a table as the list of its rows in the
-- order of insertion. The laws stand in the modules below.
mod Statements
pub mod Laws
pub mod Keys
pub mod Unique
pub mod Ascending
unfoldable pub use Statements.{
  select, find_row, update, delete_rows, count, has_row, total, insert_by, order_by,
}
