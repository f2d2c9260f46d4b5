-- ===== src/Management.antt =====
-- management.go: the management and resource routes. The status page itself is static text.
pub mod Registration
pub mod Registered
pub mod Paths
pub mod Requests
pub mod Accounts
pub mod Handlers
pub mod Dispatch
pub mod Safety
pub mod Settings
pub mod Listing
