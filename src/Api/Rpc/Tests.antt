-- ===== src/Api/Rpc/Tests.antt =====
-- Calls over HTTP of pkg/api, against small services.
use distbuild.Common.{
  ℕ, ◌≡◌, refl, true, none, some, [], ◌∷◌, zero, suc, ◌+◌, pos, ok, err, returns, panics, blocks,
  ◌andthen◌,
}
use distbuild.Build.Id.Tests.{id_of, id_of_one-IsId}
use distbuild.Build.{Graph}
use distbuild.Api.Messages.{SignalRequest, HeartbeatRequest}
use distbuild.Api.Status.{sends, write_all, new_status_writer}
use distbuild.Api.Rpc.{
  Service, http_error, malformed, null_body, start_build_handler, await_done, signal_build_handler,
  signal_build_call, read_signal,
}
use distbuild.Api.Rpc.Signals.{with_status, signal_over_http}
use distbuild.Api.Rpc.Heartbeats.{HeartbeatService, heartbeat_call, delivered, heartbeat_over_http}

-- A service that counts its signals and starts no build.
abbrev counter : Service
counter = record {
  State = ℕ;
  start_build = λ req w n. returns ((n, w), err (b'x' ∷ []));
  signal_build = λ id req n. returns (n + 1, ok tt);
}

-- One that never sends a message about its builds.
abbrev silent : Service
silent = record counter { start_build = λ req w n. returns ((n, w), ok tt) }

abbrev graph : Graph
graph = record { source_files = []; jobs = [] }

abbrev done : SignalRequest
done = record { upload_done = some tt }

-- The body `null` makes the service read through a nil pointer.
null_panics : (n : ℕ) → read_signal counter (id_of 1) null_body n ≡ panics
unfolding read_signal
null_panics n = refl

no_query : signal_build_handler counter [] malformed 3 ≡ returns (3, http_error 400 [])
unfolding signal_build_handler
no_query = refl

not_started : start_build_handler counter (some graph) sends [] 3 ≡ returns (3, http_error 500 [])
unfolding start_build_handler new_status_writer
not_started = refl

-- The handler waits for ever where no message ends the build, such as for a graph without jobs.
waits : start_build_handler silent (some graph) sends [] 3 ≡ blocks
unfolding start_build_handler await_done write_all new_status_writer
waits = refl

signal_over_http_example :
    signal_build_call counter none (id_of 1) done 3
    ≡ (counter.signal_build (id_of 1) done 3 andthen with_status)
signal_over_http_example = signal_over_http counter (id_of 1) done 3 id_of_one-IsId

-- A service that answers each second heartbeat with nothing.
abbrev stopping : HeartbeatService
stopping = record {
  State = ℕ;
  beat = λ req n. elim n [
    | zero ↦ returns (1, ok (some (record { jobs_to_run = [] })))
    | suc m ↦ returns (m, ok none)
  ];
}

abbrev request : HeartbeatRequest
request = record { worker_id = []; free_slots = pos 1; finished_job = []; added_artifacts = [] }

one_answered :
    heartbeat_call stopping none request true 0
    ≡ (stopping.beat request 0 andthen delivered stopping)
one_answered = heartbeat_over_http stopping request 0

-- Where the service gives neither a response nor an error the handler panics.
nil_response : heartbeat_call stopping none request true 1 ≡ panics
nil_response = heartbeat_over_http stopping request 1
