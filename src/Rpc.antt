-- ===== src/Rpc.antt =====
-- internal/rpc: the server and its request handlers.
pub mod Server
pub mod Executors
pub mod Cover
pub mod Lease
pub mod Apply
pub mod Restoring
pub mod Expiry
pub mod Confirm
pub mod Reading
