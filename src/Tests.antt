-- ===== src/Tests.antt =====
-- Runs of the theorems on small concrete inputs, one module for each part of the API.
pub mod Connections
pub mod Events
pub mod Roles
pub mod Access
pub mod Auth
pub mod Steward
pub mod RateLimit
pub mod SecureChat
pub mod Spaces
