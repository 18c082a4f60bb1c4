-- ===== src/Db.antt =====
-- Package db (internal/db): the rows, and the statements over the tables.
pub mod Models
pub mod Rows
pub mod Jobs
pub mod Like
pub mod Folders
pub mod Downloads
