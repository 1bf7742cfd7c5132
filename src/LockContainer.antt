-- ===== src/LockContainer.antt =====
-- toolkit/source/lock_container: containers whose operations hold a lock, each of them one step.
pub mod LockList
pub mod LockQueue
pub mod LockMap
pub mod Calls
pub mod Steps
