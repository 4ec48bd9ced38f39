-- ===== src/Sync.antt =====
-- sys/sync: locks.
pub mod Mutex
