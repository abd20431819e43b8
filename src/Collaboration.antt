-- ===== src/Collaboration.antt =====
-- browser_executor/collaboration.py: the fixed tools of an agent, its recordings and its schedules.
pub mod Locator
pub mod Tool
pub mod Compile
pub mod Calls
pub mod Pages
pub mod Reading
pub mod Acting
pub mod Runs
pub mod Bound
pub mod Bounded
pub mod Schedules
pub mod Recordings
