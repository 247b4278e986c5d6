-- ===== src/Dist/Coordinator/Stored.antt =====
-- What a build that has started leaves for its signal.
use distbuild.Common.{
  length, ◌≡◌, refl, subst, true, some, List, [], ◌∷◌, map, lookup, lookup-insert_self, insert, ok,
  returns, arith,
}
use distbuild.Build.{BuildId, Text, Job, Graph, id_discrete}
use distbuild.Build.TopSort.{top_sort}
use distbuild.Api.Status.{
  begun, Sending, sends, write_fails, flush_fails, StatusError, StatusWriter, new_status_writer,
  started,
}
use distbuild.Concurrency.HappensBefore.{Machine, before_call}
use distbuild.Concurrency.HappensBefore.Order.{Rests, before_call-happen}
use distbuild.Dist.Build
use distbuild.Dist.Build.{job_source_files, file_name_to_id}
use distbuild.Dist.Build.Stored.{start_build_stores}
use distbuild.Dist.Reports.Once.{Going}
use distbuild.Dist.Reports.Counting.{tally, is_finish}
use distbuild.Dist.Coordinator.{Coordinator, store_build, store_all, start_with_writer}

-- `Before` returns, and then the three loads find the build, whose stream has begun.
pub record Holds (g : Graph) (id : BuildId) (c : Coordinator) (w : StatusWriter) : Type 0 where
  pub jobs : List Job
  pub hb : Machine BuildId
  pub sorted : top_sort g.jobs ≡ some jobs
  pub passes : before_call id_discrete id c.hb ≡ returns hb
  pub build_graph : lookup id_discrete c.core.build_graph id ≡ some jobs
  pub build_source_files :
      lookup id_discrete c.core.build_source_files id
      ≡ some (map (job_source_files (file_name_to_id g)) jobs)
  pub build_status_writer : lookup id_discrete c.build_status_writer id ≡ some w
  pub going : Going w
  pub first : length w.frames ≡ 1

-- A start under a new identifier whose first message is sent.
pub start_with_writer-starts :
    (g : Graph) (id : BuildId) (describe : StatusError → Text) (c : Coordinator)
    → Rests id_discrete c.hb id
    → (c' : Coordinator) × (w : StatusWriter) × (start_with_writer id sends describe
          (record { graph = g })
          new_status_writer
          c
        ≡ returns ((c', w), ok tt))
      × Holds g id c' w
unfolding start_with_writer store_build store_all new_status_writer started tally is_finish
start_with_writer-starts g id describe c rests =
    let (core, jobs, stores, found, _, sorted, files) = start_build_stores id g c.core in
    let (hb, after, happens, passes) = before_call-happen id_discrete id c.hb rests in
    let w : StatusWriter = record new_status_writer {
      start_msg_send = true;
      frames = begun (Build.started id g) ∷ [];
    } in
    (
      record {
        core = core;
        build_status_writer = insert id_discrete c.build_status_writer id w;
        hb = hb;
      },
      w,
      ground (arith, stores, happens),
      record {
        jobs = jobs;
        hb = after;
        sorted = sorted;
        passes = passes;
        build_graph = found;
        build_source_files = files;
        build_status_writer = lookup-insert_self id_discrete c.build_status_writer id w;
        going = record { began = refl; still_open = refl; unfinished = refl };
        first = refl;
      },
    )

pub start_with_writer-Holds :
    (g : Graph) (id : BuildId) (how : Sending) (describe : StatusError → Text) (c c' : Coordinator)
    (w : StatusWriter)
    → Rests id_discrete c.hb id
    → start_with_writer id how describe (record { graph = g }) new_status_writer c
      ≡ returns ((c', w), ok tt)
    → Holds g id c' w
unfolding start_with_writer store_build new_status_writer started
start_with_writer-Holds g id write_fails describe c c' w rests e = absurd (ground arith)
start_with_writer-Holds g id flush_fails describe c c' w rests e = absurd (ground arith)
start_with_writer-Holds g id sends describe c c' w rests e =
    let (c₀, w₀, made, held) = start_with_writer-starts g id describe c rests in
    let same_c : c₀ ≡ c' = ground (arith, made, e) in
    let same_w : w₀ ≡ w = ground (arith, made, e) in
    subst (λ w. Holds g id c' w) same_w (subst (λ c. Holds g id c w₀) same_c held)
