-- ===== src/Tests.antt =====
-- Runs on small inputs, and the theorems at them.
pub mod Networks
pub mod Storages
pub mod Deployments
pub mod Streams
pub mod Histories
pub mod Deployed
pub mod Restored
pub mod Filed
pub mod Handshakes
pub mod Authorized
pub mod Accepted
pub mod Parameters
pub mod Texts
pub mod Watchers
