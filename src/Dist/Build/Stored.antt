-- ===== src/Dist/Build/Stored.antt =====
-- What `StartBuild` of pkg/dist/build_service.go stores.
use distbuild.Common.{◌≡◌, some, false, List, map, Perm, lookup, lookup-insert_self, ok, arith}
use distbuild.Build.{BuildId, id_discrete, Graph, Job}
use distbuild.Build.TopSort.{top_sort}
use distbuild.Build.TopSort.Total.{top_sort-perm}
use distbuild.Dist.Build.{Core, store, start_build, job_source_files, file_name_to_id}

-- With a first message that arrives `StartBuild` stores the jobs of the graph, sorted.
pub start_build_stores :
    (id : BuildId) (g : Graph) (c : Core)
    → (core : Core) × (jobs : List Job) × ((start_build id false g c).1 ≡ ok core)
      × (lookup id_discrete core.build_graph id ≡ some jobs)
      × Perm jobs g.jobs
      × (top_sort g.jobs ≡ some jobs)
      × (lookup id_discrete core.build_source_files id
          ≡ some (map (job_source_files (file_name_to_id g)) jobs))
unfolding start_build store
start_build_stores id g c =
    let (jobs, e, same) = top_sort-perm g.jobs in
    (
      store id jobs (map (job_source_files (file_name_to_id g)) jobs) c,
      jobs,
      ground (arith, e),
      lookup-insert_self id_discrete c.build_graph id jobs,
      same,
      e,
      lookup-insert_self id_discrete c.build_source_files id
          (map (job_source_files (file_name_to_id g)) jobs),
    )
