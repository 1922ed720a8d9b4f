-- ===== src/Process.antt =====
-- The process: the two HTTP servers and their shutdown, the probes, and the entry point.
pub mod Server
pub mod Health
pub mod Main
