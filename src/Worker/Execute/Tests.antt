-- ===== src/Worker/Execute/Tests.antt =====
-- A job with one dependency. A directory is a number here.
use distbuild.Common.{ℕ, ◌≡◌, refl, Option, none, some, [], ◌∷◌, All, ok, returns, lookup, negsuc}
use distbuild.Build.{Text, Cmd, id_discrete, Job}
use distbuild.Build.Id.Tests.{id_of}
use distbuild.Artifact.{Cache, removed, new_cache}
use distbuild.Worker.Execute.{Machine, Ends, Executed, execute_job, execute_command, is_empty}
use distbuild.Worker.Execute.Locks.{Reads, Fetchable}
use distbuild.Worker.Execute.Leaves.{Leaves, execute_job-Leaves}

abbrev with_one : Cache ℕ
unfolding new_cache
with_one = new_cache ((id_of 1, 40) ∷ [])

abbrev compile : Cmd
compile = record {
  exec = (b'c' ∷ b'c' ∷ []) ∷ [];
  environ = [];
  working_directory = [];
  cat_template = [];
  cat_output = [];
}

abbrev job : Job
job = record {
  id = id_of 2;
  name = [];
  inputs = [];
  deps = id_of 1 ∷ [];
  cmds = compile ∷ compile ∷ [];
}

abbrev machine : Option Text → Machine ℕ
machine failure = record {
  render = λ cmd ctx. some cmd;
  process = λ cmd. record { stdout = b'o' ∷ []; stderr = []; error = failure };
  write_file = λ cmd. none;
  output = λ cmd n. 7;
}

abbrev ends : Ends ℕ
ends = record {
  empty = 0;
  create_stat = none;
  mkdir = none;
  dep_stat = λ d. none;
  removal = removed;
  rename = none;
  source_dir = [];
  output_dir = [];
  dir_of = λ d. [];
}

no_readers : Reads (λ k. 0) with_one
unfolding new_cache lookup
no_readers k = refl

fetchable : All (Fetchable with_one) (id_of 1 ∷ [])
unfolding new_cache lookup id_discrete
fetchable = (record { tree = 40; committed = refl; unwritten = refl }, tt)

execute_job-Leaves_example :
    (r : Executed ℕ) × (execute_job (machine (some (b'x' ∷ []))) ends (ok tt) job with_one
      ≡ returns r)
    × Leaves (λ k. 0) job with_one r
execute_job-Leaves_example =
    execute_job-Leaves (machine (some (b'x' ∷ []))) ends (ok tt) (λ k. 0) job with_one no_readers
      fetchable (λ d. refl) (λ cmd. (cmd, refl))

-- The exit code of a process is -1 also where it succeeds.
exit_code_lost : (execute_command (machine none) compile).0 ≡ negsuc 0
unfolding execute_command is_empty
exit_code_lost = refl
