-- ===== src/Worker.antt =====
-- pkg/worker: the workers.
pub mod State
pub mod Execute
pub mod Download
pub mod Jobs
pub mod Loop
