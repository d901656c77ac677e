-- ===== src/Order.antt =====
-- Orders: the state machine of their statuses, the rows of the ledger, and its operations.
pub mod StateMachine
pub mod Row
pub mod Reservation
pub mod Ledger
