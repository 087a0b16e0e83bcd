-- ===== src/State.antt =====
-- internal/state: blobs in files, domain records over them, and the timers of the leases.
pub mod Files
pub mod Atomic
pub mod Records
pub mod Arming
pub mod Domain
pub mod Leases
pub mod Live
