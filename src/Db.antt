-- ===== src/Db.antt =====
-- sample-api/pkg/db: the rows, the interface of `Queries`, and its implementation over tables.
pub mod Models
pub mod Params
pub mod Queries
pub mod Client
pub mod Store
pub mod Migrations
