-- ===== src/Fsm.antt =====
-- resetbank.go: the state machine of one account, and its proofs by subject.
pub mod Machine
pub mod Idle
pub mod Confirm
pub mod Redeem
pub mod Verify
pub mod Tick
pub mod Edges
pub mod Trigger
pub mod Posts
pub mod Trace
pub mod Retries
pub mod Waits
pub mod Ledger
pub mod Settle
pub mod Patrol
pub mod Verdict
pub mod Aliases
