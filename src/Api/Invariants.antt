-- ===== src/Api/Invariants.antt =====
-- What the queries keep, the handlers and the whole server keep.
pub mod Handlers
pub mod Requests
