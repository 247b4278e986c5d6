-- ===== src/Dist.antt =====
-- pkg/dist: the coordinator's services.
pub mod Build
pub mod Heartbeat
pub mod Reports
pub mod Coordinator
pub mod Signal
