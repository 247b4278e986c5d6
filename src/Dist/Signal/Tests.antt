-- ===== src/Dist/Signal/Tests.antt =====
-- A build of one job is started and signalled.
use distbuild.Common.{◌≡◌, false, [], ◌∷◌, ok, returns}
use distbuild.Build.{id_discrete}
use distbuild.Build.Id.Tests.{id_of}
use distbuild.Api.Status.{sends, StatusWriter, new_status_writer}
use distbuild.Scheduler.{new_scheduler}
use distbuild.Scheduler.Answered.{Answered}
use distbuild.Scheduler.Tests.{to_done}
use distbuild.Concurrency.HappensBefore.Order.{new_machine-Rests}
use distbuild.Dist.Build.Tests.{around, lone}
use distbuild.Dist.Reports.Tests.{go, no_files}
use distbuild.Dist.Coordinator.{Coordinator, start_with_writer}
use distbuild.Dist.Coordinator.Stored.{Holds, start_with_writer-starts}
use distbuild.Dist.Coordinator.Tests.{idle}
use distbuild.Dist.Signal.Safe.{Safe}
use distbuild.Dist.Signal.{Site, Course}

-- The coordinator after the start, and the stream.
abbrev begun_at :
    (c : Coordinator) × (w : StatusWriter) × (start_with_writer
        (id_of 9)
        sends
        (λ e. [])
        (record { graph = lone })
        new_status_writer
        idle
      ≡ returns ((c, w), ok tt))
    × Holds lone (id_of 9) c w
begun_at =
    start_with_writer-starts lone (id_of 9) (λ e. []) idle (new_machine-Rests id_discrete (id_of 9))

abbrev course : Course
course = record {
  around = around;
  others = to_done;
  turns = go 0 ∷ go 0 ∷ go 0 ∷ go 0 ∷ [];
  done = false;
}

abbrev site : Site
site = record { coordinator = begun_at.0; scheduler = new_scheduler; file_cache = no_files }
