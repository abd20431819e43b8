-- ===== src/Policy.antt =====
-- browser_executor/policy.py: the local upload and download roots.
pub mod Roots
pub mod Inside
