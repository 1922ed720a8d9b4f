-- ===== src/Db/Store.antt =====
-- The statements of sample-api/pkg/db/query.sql.go over the tables of
-- sample-api/pkg/db/migrations/000001_init_schema.up.sql, and the interface `Queries` filled by them.
pub mod Base
pub mod Roles
pub mod Users
pub mod Posts
pub mod Comments
pub mod Connection
pub mod Wire
pub mod Invariant
pub mod Keeps
pub mod Deletion
pub mod Accounts
pub mod Missing
pub mod Maps
