-- ===== src/Worker/Jobs/Tests.antt =====
-- A worker that runs a job and one that has run it before.
use distbuild.Common.{
  arith, ok, ℕ, ◌≡◌, refl, false, none, some, [], ◌∷◌, lookup, insert, returns, pos,
}
use distbuild.Build.{id_discrete}
use distbuild.Build.Id.Tests.{id_of, id_of_one-IsId}
use distbuild.Api.{JobResult}
use distbuild.Artifact.{removed, new_cache}
use distbuild.Scheduler.{bare_spec}
use distbuild.Artifact
use distbuild.Build.Id.{marshal_text}
use distbuild.Filecache.{Files}
use distbuild.Filecache.Serving.{Method, content, serve, handle_get, get-put_over_http}
use distbuild.Filecache.Uploading.{Attempt, upload, stored-upload}
use distbuild.Filecache.Tests.{
  sys, no_file, stored, calls, put_stored, write-no_file, fill-created_file,
}
use distbuild.Worker.Jobs
use distbuild.Worker.Jobs.Transfer.{file_reply, download_over_http, download-upload}
use distbuild.Worker.State.{new_worker_state, add_job_result}
use distbuild.Worker.Download
use distbuild.Worker.Jobs.{unreachable, download_file, store_body, Worker, World, reports, run_job}
use distbuild.Worker.Jobs.Reporting.{Own, Own-insert, Own-nil}

abbrev pub kept : JobResult
kept = record { id = id_of 1; stdout = b'o' ∷ []; stderr = []; exit_code = pos 0; error = none }

abbrev pub worker : Worker ℕ
unfolding new_cache new_worker_state
worker = record {
  state = new_worker_state 2;
  job_results = (id_of 1, kept) ∷ [];
  artifacts = new_cache [];
  files = new_cache [];
}

abbrev pub world : World ℕ
world = record {
  machine = record {
    render = λ cmd ctx. some cmd;
    process = λ cmd. record { stdout = []; stderr = []; error = none };
    write_file = λ cmd. none;
    output = λ cmd n. 7;
  };
  artifact_ends = λ id. record {
    stat = none;
    create_stat = none;
    mkdir = none;
    empty = 0;
    removal = removed;
    rename = none;
    reply = Download.Reply.refused;
  };
  file_ends = λ id. (
    record {
      stat = none;
      mkdir_all = none;
      removal = removed;
      rename = none;
      create_file = none;
      copy = none;
      close = none;
    },
    unreachable,
  );
  link_ends = λ id. (none, none);
  execute_ends = record {
    empty = 0;
    create_stat = none;
    mkdir = none;
    dep_stat = λ d. none;
    removal = removed;
    rename = none;
    source_dir = [];
    output_dir = [];
    dir_of = λ d. [];
  };
  say = λ e. [];
  cancelled = false;
}

pub kept-Own : Own ((id_of 1, kept) ∷ [])
unfolding insert
kept-Own = Own-insert [] (id_of 1) kept refl refl Own-nil

abbrev pub worker_after : Worker ℕ
worker_after = record worker { state = add_job_result false kept worker.state }

pub run_job-kept : run_job world (id_of 1) (bare_spec (id_of 1)) worker ≡ returns worker_after
unfolding worker run_job reports id_discrete lookup
run_job-kept = refl

abbrev attempt : Attempt
attempt = record { open_file = none; request = none; breaks = false }

upload-file : upload attempt (id_of 1) (b'b' ∷ []) calls no_file ≡ returns (stored, ok tt)
upload-file = stored-upload attempt (id_of 1) (b'b' ∷ []) calls no_file stored refl refl put_stored

-- The coordinator's answer to the worker.
abbrev answered :
    (e : Files) × (serve (marshal_text (id_of 1)) Method.get calls stored
      ≡ returns (e, content (b'b' ∷ [])))
    × ((handle_get (id_of 1) calls.reads stored).2 ≡ content [])
answered = get-put_over_http (id_of 1) (b'b' ∷ []) calls no_file stored id_of_one-IsId put_stored

downloaded :
    download_over_http none unreachable (id_of 1) calls sys stored no_file
    ≡ returns (answered.0, stored, ok tt)
unfolding download_over_http file_reply download_file store_body Jobs.stored
downloaded = ground (arith, answered.1, write-no_file, fill-created_file)

download-upload_example : (Artifact.get (id_of 1) none stored).1 ≡ ok (some (b'b' ∷ []))
download-upload_example =
    download-upload (id_of 1) (b'b' ∷ []) attempt calls calls none unreachable sys no_file stored
      answered.0 no_file stored id_of_one-IsId upload-file refl refl downloaded
