-- ===== src/Worker.antt =====
-- worker.go: the loop that drives one state machine per account, and its proofs by subject.
pub mod State
pub mod Accounts
pub mod Loop
pub mod Triggers
pub mod Sound
pub mod Steps
pub mod Reach
pub mod Order
pub mod Listing
pub mod Coverage
pub mod Manual
