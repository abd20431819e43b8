-- ===== src/Driver.antt =====
-- browser_executor/driver.py: `ProviderDriverSession`. The client's `run` and the adapter's `verify`
-- enter as functions.
pub mod Session
pub mod Verified
