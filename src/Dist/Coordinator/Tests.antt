-- ===== src/Dist/Coordinator/Tests.antt =====
-- A client starts a build of one job.
use distbuild.Common.{◌≡◌, refl, none, some, List, [], ◌∷◌, lookup, Perm, ok, returns}
use distbuild.Build.{Graph, Job, id_discrete}
use distbuild.Build.Id.Tests.{id_of}
use distbuild.Api.{StatusUpdate, BuildStarted}
use distbuild.Api.Status.{sends, Body}
use distbuild.Api.Status.Reading.{Reads, changes}
use distbuild.Api.Rpc.{start_build_call}
use distbuild.Concurrency.HappensBefore.{new_machine}
use distbuild.Concurrency.HappensBefore.Order.{new_machine-Rests}
use distbuild.Dist.Build
use distbuild.Dist.Coordinator.{Coordinator, coordinator}
use distbuild.Dist.Coordinator.Starting.{Announces, start_build_over_http}

abbrev graph : Graph
graph = record {
  source_files = (id_of 7, b'm' ∷ []) ∷ [];
  jobs = record { id = id_of 1; name = []; inputs = []; deps = []; cmds = [] } ∷ [];
}

abbrev pub idle : Coordinator
idle = record {
  core = record { build_source_files = []; build_graph = [] };
  build_status_writer = [];
  hb = new_machine;
}

abbrev last : StatusUpdate
last = record { job_finished = none; build_failed = none; build_finished = some tt }

start_build_over_http_example :
    (c' : Coordinator) × (rsp : BuildStarted) × (body : Body) × (jobs : List Job)
    × (start_build_call
          (coordinator (id_of 9) sends (λ e. []) (λ id req c. returns (c, ok tt)))
          none
          graph
          sends
          (changes (last ∷ []))
          idle
        ≡ returns (c', ok (rsp, body)))
    × Announces (id_of 9) graph rsp
    × Reads body (last ∷ [])
    × (lookup id_discrete c'.core.build_graph (id_of 9) ≡ some jobs)
    × Perm jobs graph.jobs
start_build_over_http_example =
    start_build_over_http (id_of 9) (λ e. []) (λ id req c. returns (c, ok tt)) graph sends [] last
      idle (new_machine-Rests id_discrete (id_of 9)) tt refl
