-- ===== src/Client.antt =====
-- browser_executor/client.py: the client of the connectors, from the choice of a connector to the
-- result of one job.
pub mod Outcome
pub mod Bounded
pub mod Job
pub mod Authorized
pub mod Call
pub mod Successful
pub mod Connectors
pub mod Chosen
pub mod Values
