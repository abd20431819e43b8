-- ===== src/Protocol.antt =====
-- browser_executor/protocol.py: the validator of browser programs. The definitions and the proofs
-- stand in the modules below.
pub mod Names
pub mod Checks
pub mod Actions
pub mod Target
pub mod Locator
pub mod Guards
pub mod Interaction
pub mod Extraction
pub mod Action
pub mod Order
pub mod Program
pub mod Accepted
pub mod Boundary
pub mod Lifecycle
pub mod Forbidden
pub mod Walk
pub mod Coverage
pub mod Paths
pub mod Checked
pub mod Confined
pub mod Declared
pub mod Depth
pub mod Limits
