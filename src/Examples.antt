-- ===== src/Examples.antt =====
-- The theorems at concrete inputs, over whole numbers.
pub mod Orders
pub mod Positions
pub mod Decisions
pub mod Sending
pub mod Limits
pub mod Signals
pub mod Granting
pub mod Repairing
pub mod Replaying
pub mod Claiming
pub mod Waiting
