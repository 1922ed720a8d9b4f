-- ===== src/Tests.antt =====
-- The theorems at concrete inputs.
mod Fixtures
mod Database
mod Requests
mod Accounts
mod Text
mod Logins
mod Process
mod Sessions
mod Writes
mod Updates
mod Connection
mod Statuses
