-- ===== src/Boot.antt =====
-- The start of the plugin in main.go: where the state file is (`resolveStatePath`), which credentials an
-- account has (`hostCredsLoader`), and `configurePlugin`.
pub mod Callbacks
pub mod Path
pub mod Creds
pub mod Loading
pub mod Configure
pub mod Methods
pub mod Calls
