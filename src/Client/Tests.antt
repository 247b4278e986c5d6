-- ===== src/Client/Tests.antt =====
-- A build of two jobs, the second of which fails.
use distbuild.Common.{ℕ, ◌≡◌, refl, Option, none, some, List, [], ◌∷◌, returns, negsuc, ok}
use distbuild.Build.{Text, Graph}
use distbuild.Build.Id.Tests.{id_of}
use distbuild.Api.{JobResult, StatusUpdate}
use distbuild.Client.{listen_all, regular}
use distbuild.Client.Building.{Session, build, first_failure, ending, build_ends}
use distbuild.Dist.Build.{started}
use distbuild.Client.Listened.{messages, calls_of, listen_all-calls}

abbrev result : ℕ → Option Text → JobResult
result b error = record {
  id = id_of b;
  stdout = b'o' ∷ [];
  stderr = [];
  exit_code = negsuc 0;
  error = error;
}

abbrev updates : List StatusUpdate
updates =
    record { job_finished = some (result 1 none); build_failed = none; build_finished = none }
    ∷ record {
      job_finished = some (result 2 (some (b'x' ∷ [])));
      build_failed = some (record { error = b'x' ∷ [] });
      build_finished = some tt;
    }
    ∷ []

listen_all-calls_example :
    listen_all (λ h. none) (messages updates) [] ≡ returns (calls_of updates, none)
listen_all-calls_example = listen_all-calls updates ((λ e. refl), ((λ e. absurd (cc)), tt))

abbrev graph : Graph
graph = record { source_files = (id_of 7, b'm' ∷ []) ∷ []; jobs = [] }

-- The upload of the file succeeds, and so does the signal.
abbrev session : Session
session = record {
  start = ok (started (id_of 0) graph);
  disk = λ path. regular;
  uploads = none ∷ [];
  signal = ok tt;
  listener = λ h. none;
  stream = messages updates;
}

build_ends_example :
    build session graph ≡ ending (first_failure session.uploads) session.signal (calls_of updates)
unfolding started
build_ends_example =
    build_ends session graph (id_of 0) updates refl (λ id path e. refl) refl refl refl
      ((λ e. refl), ((λ e. absurd (cc)), tt))

all_is_well : first_failure session.uploads ≡ none
unfolding first_failure
all_is_well = refl
