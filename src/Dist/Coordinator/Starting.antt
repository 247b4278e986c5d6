-- ===== src/Dist/Coordinator/Starting.antt =====
-- A build is started over HTTP: what the client gets.
use distbuild.Common.{
  ap, length, length-map, Memᴰ, Dict, ◌≡◌, refl, true, false, none, some, List, [], ◌∷◌, ◌++◌, map,
  Perm, All, lookup, insert, Result, ok, Outcome, returns, arith,
}
use distbuild.Build.{Text, BuildId, id_discrete, Graph, Job}
use distbuild.Api.{BuildStarted, SignalRequest, StatusUpdate}
use distbuild.Api.Status.{
  begun, changed, Sending, sends, StatusError, StatusWriter, new_status_writer, started, Body,
}
use distbuild.Api.Status.Reading.{Reads, Reads-changed, changes}
use distbuild.Concurrency.HappensBefore.Order.{Rests, before_call-happen}
use distbuild.Api.Rpc.{start_build_call}
use distbuild.Dist.Build
use distbuild.Dist.Build.Stored.{start_build_stores}
use distbuild.Api.Rpc.Starts.{start_build_call-started}
use distbuild.Dist.Coordinator.{Coordinator, store_build, store_all, start_with_writer, coordinator}

-- The message names the build and, as missing, each source file of the graph once.
pub record Announces (id : BuildId) (g : Graph) (rsp : BuildStarted) : Type 0 where
  pub named : rsp.id ≡ id
  pub size : length rsp.missing_files ≡ length g.source_files
  pub every : (f : BuildId) (path : Text) → Memᴰ (f, path) g.source_files → Memᴰ f rsp.missing_files
  pub only :
      (f : BuildId) → Memᴰ f rsp.missing_files → (path : Text) × Memᴰ (f, path) g.source_files

every_file :
    (f : BuildId) (path : Text) (files : Dict BuildId Text)
    → Memᴰ (f, path) files
    → Memᴰ f (map (λ (f : BuildId × Text). f.0) files)
every_file f path [] m = elim m [ ]
every_file f path (x ∷ files) (Memᴰ.head e) = Memᴰ.head (ap (λ (f : BuildId × Text). f.0) e)
every_file f path (x ∷ files) (Memᴰ.tail m) = Memᴰ.tail (every_file f path files m)

only_files :
    (f : BuildId) (files : Dict BuildId Text)
    → Memᴰ f (map (λ (f : BuildId × Text). f.0) files)
    → (path : Text) × Memᴰ (f, path) files
only_files f [] m = elim m [ ]
only_files f ((id, path) ∷ files) (Memᴰ.head e) =
    (path, Memᴰ.head (ap (λ (i : BuildId). (i, path)) e))
only_files f (x ∷ files) (Memᴰ.tail m) =
    let (path, m') = only_files f files m in (path, Memᴰ.tail m')

started-Announces : (id : BuildId) (g : Graph) → Announces id g (Build.started id g)
unfolding Build.started
started-Announces id g = record {
  named = refl;
  size = length-map (λ (f : BuildId × Text). f.0) g.source_files;
  every = λ f path. every_file f path g.source_files;
  only = λ f. only_files f g.source_files;
}

module _ (id : BuildId) (describe : StatusError → Text)
    (signal : BuildId
      → SignalRequest
      → Coordinator
      → Outcome (Coordinator × Result Text (Unit {0}))) where
  -- A client starts a build, and others write updates on the stream until one of them says that the
  -- build has finished. The client gets the identifier and each source file once as missing, its
  -- reader gives those updates in order and then the end, and the coordinator has stored the
  -- jobs of the graph in some order. This is where every message is sent and no call has been for
  -- that identifier.
  pub start_build_over_http :
      (g : Graph) (how : Sending) (us : List StatusUpdate) (last : StatusUpdate) (c : Coordinator)
      → Rests id_discrete c.hb id
      → All (λ u. u.build_finished ≡ none) us
      → last.build_finished ≡ some tt
      → (c' : Coordinator) × (rsp : BuildStarted) × (body : Body) × (jobs : List Job)
        × (start_build_call
              (coordinator id sends describe signal)
              none
              g
              how
              (changes (us ++ last ∷ []))
              c
            ≡ returns (c', ok (rsp, body)))
        × Announces id g rsp
        × Reads body (us ++ last ∷ [])
        × (lookup id_discrete c'.core.build_graph id ≡ some jobs)
        × Perm jobs g.jobs
  unfolding start_with_writer store_build store_all new_status_writer started
  start_build_over_http g how us last c rests plain finish =
      let (hb, _, happens, _) = before_call-happen id_discrete id c.hb rests in
      let (core, jobs, e, found, same, _, _) = start_build_stores id g c.core in
      let w : StatusWriter = record new_status_writer {
        start_msg_send = true;
        frames = begun (Build.started id g) ∷ [];
      } in
      let c' : Coordinator = record {
        core = core;
        build_status_writer = insert id_discrete c.build_status_writer id w;
        hb = hb;
      } in
      (
        c',
        Build.started id g,
        record { frames = map changed (us ++ last ∷ []); breaks = false },
        jobs,
        start_build_call-started (coordinator id sends describe signal) g how us last c c' w
            (Build.started id g) (ground (arith, e, happens)) refl refl refl plain finish,
        started-Announces id g,
        Reads-changed (us ++ last ∷ []),
        found,
        same,
      )
