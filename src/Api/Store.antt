-- ===== src/Api/Store.antt =====
-- The server over the tables: what requests do to the database.
pub mod Sessions
pub mod Merges
pub mod Updates
pub mod Profiles
pub mod Threads
pub mod Authorship
pub mod Consistency
pub mod Connected
pub mod Interleaved
pub mod Reads
pub mod Accounts
pub mod Logins
pub mod Failures
pub mod Lists
pub mod Ownership
