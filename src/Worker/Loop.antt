-- ===== src/Worker/Loop.antt =====
-- pkg/worker/worker.go: `Run`, the loop of heartbeats. The jobs of one response run at the same time;
-- here each is one step, in the order in which they end.
pub mod Answers
pub mod Tests
use distbuild.Common.{
  Bool, true, false, List, [], ◌∷◌, ◌++◌, Dict, Result, ok, err, Outcome, returns, blocks,
  ◌andthen◌,
}
use distbuild.Build.{BuildId}
use distbuild.Api.{WorkerId, JobSpec, HeartbeatRequest, HeartbeatResponse}
use distbuild.Api.Rpc.{ClientError}
use distbuild.Worker.State.{pull}
use distbuild.Worker.Jobs.{Worker, World, run_job}

-- One round: whether the context is done, the answer to the heartbeat, and the world of each job.
pub record Cycle (Tree : Type 0) : Type 0 where
  pub done : Bool
  pub reply : Result ClientError HeartbeatResponse
  pub worlds : BuildId → World Tree

pub data Stop : Type 0 where
  context_done : Stop
  heartbeat_failed : ClientError → Stop

module _ {Tree : Type 0} where
  -- `wg.Wait` waits for the jobs of the round.
  pub run_jobs : (BuildId → World Tree) → Dict BuildId JobSpec → Worker Tree → Outcome (Worker Tree)
  run_jobs worlds [] w = returns w
  run_jobs worlds ((id, job) ∷ jobs) w = run_job (worlds id) id job w andthen run_jobs worlds jobs

  -- `Run`, with the requests sent so far. Where no round is left it goes on.
  pub run :
      WorkerId
      → List (Cycle Tree)
      → List HeartbeatRequest
      → Worker Tree
      → Outcome ((Worker Tree × List HeartbeatRequest) × Stop)
  run me [] requests w = blocks
  run me (c ∷ cs) requests w =
      let (request, state) = pull me w.state in
      let w' = record w { state = state } in
      let requests' = requests ++ request ∷ [] in
      elim c.done [
        | true ↦ returns ((w, requests), context_done)
        | false ↦ elim c.reply [
          | err e ↦ returns ((w', requests'), heartbeat_failed e)
          | ok rsp ↦ run_jobs c.worlds rsp.jobs_to_run w' andthen run me cs requests'
        ]
      ]
