-- ===== src/Collaboration/Bounded.antt =====
-- Every tool gives the client at most one job, and that job is bound to the tab that is named.
mod Parts
pub mod Pages
pub mod Reading
pub mod Acting
pub mod Recordings
pub use Parts.{Sends}
