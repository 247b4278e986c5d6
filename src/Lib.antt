-- ===== src/Lib.antt =====
-- distbuild: a distributed build system. A client sends a graph of jobs to a coordinator, uploads the
-- source files and listens to the status of the build; workers ask the coordinator for jobs in
-- heartbeats, fetch the files and artifacts that a job needs, run it and report the result.
--
-- Parts of the program and of this library:
-- - pkg/build (Build): identifiers and their text form in id.go (Build/Id), the data of graph.go
--   (Build/Defs), the sort of jobs by dependencies in top_sort.go (Build/TopSort) and the rendering
--   of commands in cmd.go (Build/Render), whose template engine is a parameter.
-- - pkg/api (Api): the messages of build.go and heartbeat.go (Api/Messages); the stream of a build in
--   status_writer.go and status_reader.go (Api/Status), where `started` and `updated` are Started and
--   Updated; and the calls over HTTP of build_handler.go, build_client.go, heartbeat_handler.go,
--   heartbeat_client.go and request.go (Api/Rpc), where `start_build_handler` and `signal_build_handler`
--   serve what `start_build_call` and `signal_build_call` ask for. Their services are records
--   of operations, which Dist/Coordinator fills.
-- - pkg/concurrency (Concurrency): the locks by key of key_lock.go (Concurrency/KeyLock) and the
--   machine of hb.go that makes a signal wait for its build (Concurrency/HappensBefore).
-- - pkg/scheduler (Scheduler): the table of jobs, the queue and the artifacts that workers hold. The
--   services of pkg/dist call it. `new_scheduler`, `locate_artifact`, `on_job_complete`,
--   `schedule_job`, `pick_job`, `try_pick_job`, `check_is_stop` and `stop` are the methods of the
--   same names; `step` and `run` are the histories of their calls.
-- - pkg/tarstream/stream.go (Tarstream): `send` walks a tree of files into a tar writer, `receive` makes
--   files of a stream of members.
-- - pkg/artifact/cache.go (Artifact): the cache of directories with its locks. `read_lock`,
--   `write_lock`, `create`, `commit`, `abort`, `get` and so on are the methods and the closures that
--   they return; Artifact/Holders has the system of callers that hold the locks. handler.go
--   (Artifact/Serving): `serve` sends a directory as a tar stream.
-- - pkg/filecache (Filecache): the wrappers of filecache.go around the artifact cache, the upload
--   `handle_put` of handler.go, `handle_get` and the choice of the method (Filecache/Serving), and
--   `upload`, the Upload of client.go (Filecache/Uploading).
-- - pkg/dist/build_service.go (Dist/Build): `start_build` is StartBuild; `schedule_all`, with
--   `schedule_one` and `gather` for its inner loops, is the loop of SignalBuild over the sorted jobs.
--   Between its calls of the scheduler other callers do what a value of `Surroundings` lists.
--   The goroutines that SignalBuild starts for the jobs are Dist/Reports: `take_turns` lets them go on
--   in any order. StartBuild with its status writer is a service in Dist/Coordinator, and
--   `signal_build` in Dist/Signal is the whole of SignalBuild, its loop, goroutines and wait.
--   heartbeat_service.go (Dist/Heartbeat): `heartbeat`, in the same way.
-- - pkg/worker/state.go (Worker/State): what a worker has to report; execute.go and copy.go
--   (Worker/Execute): `execute_job`, `execute_command` and `link_files`, with the artifact cache of
--   Artifact as their state; download.go and pkg/artifact/client.go (Worker/Download):
--   `download_artifacts` and `download`; worker.go with pkg/filecache/client.go (Worker/Jobs):
--   `run_job`, which puts them together, and `download_files`, with the way of a file from a client
--   to a worker in Worker/Jobs/Transfer; Worker/Loop: `run`, the worker's loop.
-- - pkg/client/build.go (Client): `listen_build` and `listen_all`, the loop that listens to a build,
--   `start_uploads`, the checks of the missing files, and `build` (Client/Building), which puts them
--   together.
-- Common holds what the parts share: maps as association lists (Common/Maps), lists with native
-- numbers (Common/Lists), errors (Common/Results), the ways in which a call ends
-- (Common/Outcomes) and signed integers (Common/Int).
--
-- Conventions. What a method does under one lock is one step, and interleavings of callers are lists
-- of steps. A map is an association list without an order that means anything; where Go iterates over
-- a map in a random order, the order of the list stands for it. A failure of the operating system and
-- a choice that the runtime makes at random are arguments. Go's `int` is an unbounded integer: the
-- counts that the program keeps do not reach 2^63. A call returns, panics or blocks; what is written to
-- the log is left out.
--
-- Fuel: the depth-first search of the sort takes fuel, one more than the number of jobs, and the jump
-- back of the upload takes fuel for two tries; both are shown to be enough.
--
-- Not modelled: HTTP, JSON and the file system itself, whose behaviour comes in as arguments; the
-- goroutines of a SignalBuild whose loop ends early; the counters of pkg/worker/metrics.go, which
-- nothing reads; the construction of the parts; the tests and their fixtures in disttest;
-- pkg/api/mock, which is generated.
pub mod Common
pub mod Build
pub mod Api
pub mod Concurrency
pub mod Scheduler
pub mod Tarstream
pub mod Artifact
pub mod Filecache
pub mod Worker
pub mod Dist
pub mod Client
