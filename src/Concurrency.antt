-- ===== src/Concurrency.antt =====
-- pkg/concurrency: locks by key, maps with a lock, and the machine that orders two events.
pub mod KeyLock
pub mod HappensBefore
