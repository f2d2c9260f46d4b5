-- ===== src/Scenarios.antt =====
-- Concrete accounts, servers and hosts, and the theorems at work on them.
pub mod Sample
mod Accounts
mod Library
mod Service
mod Records
mod Mirror
pub mod Routes
pub mod Answers
mod Http
pub mod Start
pub mod Restart
mod Simulator
mod Spending
mod Calls
