-- ===== src/Dist/Coordinator.antt =====
-- The coordinator behind pkg/api/build_handler.go: pkg/dist/build_service.go as the service of the
-- handler, with the status writers that it keeps.
pub mod Stored
pub mod Starting
pub mod Tests
use distbuild.Common.{
  Bool, true, false, List, Dict, insert, Result, ok, err, Outcome, returns, panics, ◌andthen◌,
}
use distbuild.Build.{Text, BuildId, id_discrete}
use distbuild.Api.{BuildRequest, SignalRequest}
use distbuild.Concurrency.HappensBefore.{Machine, happen}
use distbuild.Api.Status.{Sending, StatusError, StatusWriter, started}
use distbuild.Api.Rpc.{Service}
use distbuild.Dist.Build
use distbuild.Dist.Build.{Core, start_build}

-- `buildStatusWriter` stands beside the other two maps of builds, and `hb` says which are stored.
pub record Coordinator : Type 0 where
  pub core : Core
  pub build_status_writer : Dict BuildId StatusWriter
  pub hb : Machine BuildId

-- `id` is the new identifier, `how` the end of the first message, `describe` the text of an error.
module _ (id : BuildId) (how : Sending) (describe : StatusError → Text) where
  -- `hb.Happen` for the build, with its event.
  store_all : StatusWriter → Core → Coordinator → Outcome Coordinator
  store_all w core c = happen id_discrete id c.hb andthen λ hb.
      let writers = insert id_discrete c.build_status_writer id w in
      returns (record { core = core; build_status_writer = writers; hb = hb })

  -- The rest of `StartBuild`, once the first message is sent or has failed.
  store_build :
      BuildRequest
      → Coordinator
      → StatusWriter × Result StatusError (Unit {0})
      → Outcome ((Coordinator × StatusWriter) × Result Text (Unit {0}))
  store_build req c (w, err e) = returns ((c, w), err (describe e))
  store_build req c (w, ok _) = elim (start_build id false req.graph c.core).1 [
    | err e ↦ panics
    | ok core ↦ store_all w core c andthen λ c'. returns ((c', w), ok tt)
  ]

  unfoldable pub start_with_writer :
      BuildRequest
      → StatusWriter
      → Coordinator
      → Outcome ((Coordinator × StatusWriter) × Result Text (Unit {0}))
  unfolding store_build store_all
  start_with_writer req w c = store_build req c (started how (Build.started id req.graph) w)

  -- The service; `signal` is its other method.
  abbrev pub coordinator :
      (BuildId → SignalRequest → Coordinator → Outcome (Coordinator × Result Text (Unit {0})))
      → Service
  coordinator signal = record {
    State = Coordinator;
    start_build = start_with_writer;
    signal_build = signal;
  }
