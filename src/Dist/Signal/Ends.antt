-- ===== src/Dist/Signal/Ends.antt =====
-- A signalled build whose jobs all end.
use distbuild.Scheduler.{Scheduler}
use distbuild.Scheduler.Answered.{Answered}
use distbuild.Dist.Coordinator.{Coordinator}
