-- ===== src/Grants.antt =====
-- The grants of a workspace: the validation that the relay (native_messaging.py) and the client
-- (client.py) make in the same steps, each with its own exceptions and message type.
pub mod Defs
pub mod Valid
