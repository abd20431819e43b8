-- ===== src/Native.antt =====
-- browser_executor/native_messaging.py: the frames of Native Messaging, the workspace of the relay and
-- the relay of one agent's job.
pub mod Frames
pub mod RoundTrip
pub mod Messages
pub mod Exchange
pub mod Agent
pub mod Relayed
pub mod Relay
pub mod Invariant
