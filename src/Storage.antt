-- ===== src/Storage.antt =====
-- browser_executor/storage.py: which sockets a client may talk to.
pub mod Sockets
pub mod Private
pub mod Candidates
