-- ===== src/Worker/Loop/Answers.antt =====
-- The loop of pkg/worker/worker.go answers every job that it gets.
use distbuild.Common.{
  ◌≡◌, refl, sym, ap, subst, ◌∙◌, true, false, Bool-cases, inl, inr, List, [], ◌∷◌, ◌++◌, map, All,
  Dict, Result, ok, err, returns, ◌andthen◌, andthen-eq-returns, arith,
}
use mathlib.Core.List.{append_assoc, append-nil, map-append}
use distbuild.Build.{BuildId}
use distbuild.Api.{WorkerId, JobSpec, JobResult, HeartbeatRequest, HeartbeatResponse}
use distbuild.Api.Rpc.{ClientError}
use distbuild.Worker.State.{pull}
use distbuild.Worker.Jobs.{Worker, World, run_job}
use distbuild.Worker.Jobs.Reporting.{Own, Reports, run_job-Reports}
use distbuild.Worker.Loop.{Cycle, Stop, run_jobs, run}

abbrev pub ids : List JobResult → List BuildId
ids rs = map (λ (r : JobResult). r.id) rs

-- The identifiers of the results in requests.
pub reported : List HeartbeatRequest → List BuildId
reported [] = []
reported (r ∷ rs) = ids r.finished_job ++ reported rs

-- Those that a worker has reported or is about to report.
abbrev pub accounted : {Tree : Type 0} → Worker Tree × List HeartbeatRequest → List BuildId
accounted (w, requests) = reported requests ++ ids w.state.finished_job

abbrev pub keys : Dict BuildId JobSpec → List BuildId
keys jobs = map (λ (j : BuildId × JobSpec). j.0) jobs

-- A job stands under its own identifier.
abbrev pub IsNamed : BuildId × JobSpec → Type 0
IsNamed (id, job) = job.id ≡ id

abbrev pub FineReply : Result ClientError HeartbeatResponse → Type 0
FineReply (err e) = Unit
FineReply (ok rsp) = All IsNamed rsp.jobs_to_run

reported-append : (xs ys : List HeartbeatRequest) → reported (xs ++ ys) ≡ reported xs ++ reported ys
unfolding reported
reported-append [] ys = refl
reported-append (x ∷ xs) ys =
    ap (λ l. ids x.finished_job ++ l) (reported-append xs ys)
    ∙ sym (append_assoc (ids x.finished_job) (reported xs) (reported ys))

module _ {Tree : Type 0} where
  -- The jobs of the rounds that the loop gets to.
  unfoldable pub given : List (Cycle Tree) → List BuildId
  given [] = []
  given (c ∷ cs) =
      let rest = given cs in
      elim c.done [
        | true ↦ []
        | false ↦ elim c.reply [ err e ↦ [] | ok rsp ↦ keys rsp.jobs_to_run ++ rest ]
      ]

  -- The context does not end while a job runs, and the answer names its jobs rightly.
  pub record IsFine (c : Cycle Tree) : Type 0 where
    pub goes : (id : BuildId) → (c.worlds id).cancelled ≡ false
    pub named : FineReply c.reply

  run_jobs-ids :
      (worlds : BuildId → World Tree) (jobs : Dict BuildId JobSpec) (w w' : Worker Tree)
      → ((id : BuildId) → (worlds id).cancelled ≡ false)
      → All IsNamed jobs
      → Own w.job_results
      → run_jobs worlds jobs w ≡ returns w'
      → (ids w'.state.finished_job ≡ ids w.state.finished_job ++ keys jobs) × Own w'.job_results
  unfolding run_jobs Reports
  run_jobs-ids worlds [] w w' goes named own e =
      let same : w ≡ w' = cc in
      subst (λ x. (ids x.state.finished_job ≡ ids w.state.finished_job ++ []) × Own x.job_results)
        same (sym (append-nil (ids w.state.finished_job)), own)
  run_jobs-ids worlds ((id, job) ∷ jobs) w w' goes (name, named) own e =
      let (x, rest, first) = andthen-eq-returns (run_job (worlds id) id job w) _ e in
      let (res, one, is, own') = run_job-Reports (worlds id) id job w x (goes id) name own first in
      let (more, own'') = run_jobs-ids worlds jobs x w' goes named own' rest in
      let now : ids x.state.finished_job ≡ ids w.state.finished_job ++ id ∷ [] =
        ap ids one
        ∙ map-append (λ (r : JobResult). r.id) w.state.finished_job (res ∷ [])
        ∙ ap (λ i. ids w.state.finished_job ++ i ∷ []) is in
      (
        more
            ∙ ap (λ l. l ++ keys jobs) now
            ∙ append_assoc (ids w.state.finished_job) (id ∷ []) (keys jobs),
        own'',
      )

  pulled :
      (me : WorkerId) (requests : List HeartbeatRequest) (w : Worker Tree)
      → reported (requests ++ (pull me w.state).0 ∷ []) ≡ accounted (w, requests)
  unfolding pull reported
  pulled me requests w =
      reported-append requests ((pull me w.state).0 ∷ [])
      ∙ ap (λ l. reported requests ++ l) (append-nil (ids w.state.finished_job))

  -- One round that gets jobs.
  round :
      (me : WorkerId) (requests : List HeartbeatRequest) (w x : Worker Tree)
      (jobs : Dict BuildId JobSpec) (rest : List BuildId) (total : List BuildId)
      → ids x.state.finished_job ≡ keys jobs
      → total ≡ accounted (x, requests ++ (pull me w.state).0 ∷ []) ++ rest
      → total ≡ accounted (w, requests) ++ (keys jobs ++ rest)
  round me requests w x jobs rest total new e =
      e
      ∙ ap (λ l. (l ++ ids x.state.finished_job) ++ rest) (pulled me requests w)
      ∙ ap (λ l. (accounted (w, requests) ++ l) ++ rest) new
      ∙ append_assoc (accounted (w, requests)) (keys jobs) rest

  -- Every job that the answers to the heartbeats have given is answered once and in order: when the
  -- loop ends, the results that it has sent or is about to send are those from before and one for each
  -- job, under its identifier. This is for rounds that do not end in the middle of a job, whose jobs
  -- stand under their identifiers, and a worker that keeps results under theirs.
  pub run_answers :
      (me : WorkerId) (cs : List (Cycle Tree)) (requests : List HeartbeatRequest) (w : Worker Tree)
      (end : Worker Tree × List HeartbeatRequest) (why : Stop)
      → All IsFine cs
      → Own w.job_results
      → run me cs requests w ≡ returns (end, why)
      → accounted end ≡ accounted (w, requests) ++ given cs
  unfolding run pull given reported
  run_answers me [] requests w end why fine own e = absurd (cc)
  run_answers me (c ∷ cs) requests w end why (f, fine) own e = elim (Bool-cases c.done) [
    | inl done ↦
        let same : (w, requests) ≡ end = ground (arith, e, done) in
        let nothing : given (c ∷ cs) ≡ [] = ground (arith, done) in
        sym (ap accounted same)
        ∙ sym (append-nil (accounted (w, requests)))
        ∙ ap (λ l. accounted (w, requests) ++ l) (sym nothing)
    | inr goes ↦
        elim c.reply
            as (λ r. c.reply ≡ r → accounted end ≡ accounted (w, requests) ++ given (c ∷ cs)) [
              | err x ↦ λ h.
                  let same : (
                    record w { state = (pull me w.state).1 },
                    requests ++ (pull me w.state).0 ∷ [],
                  )
                      ≡ end =
                    ground (arith, e, goes, h) in
                  let nothing : given (c ∷ cs) ≡ [] = ground (arith, goes, h) in
                  sym (ap accounted same)
                  ∙ append-nil (reported (requests ++ (pull me w.state).0 ∷ []))
                  ∙ pulled me requests w
                  ∙ sym (append-nil (accounted (w, requests)))
                  ∙ ap (λ l. accounted (w, requests) ++ l) (sym nothing)
              | ok rsp ↦ λ h.
                  let w' = record w { state = (pull me w.state).1 } in
                  let requests' = requests ++ (pull me w.state).0 ∷ [] in
                  let e' : (run_jobs c.worlds rsp.jobs_to_run w' andthen run me cs requests')
                      ≡ returns (end, why) =
                    ground (arith, e, goes, h) in
                  let (x, later, first) =
                    andthen-eq-returns (run_jobs c.worlds rsp.jobs_to_run w') _ e' in
                  let (new, own') =
                    run_jobs-ids c.worlds rsp.jobs_to_run w' x f.goes (subst FineReply h f.named)
                      own first in
                  let more : given (c ∷ cs) ≡ keys rsp.jobs_to_run ++ given cs =
                    ground (arith, goes, h) in
                  round me requests w x rsp.jobs_to_run (given cs) (accounted end) new
                    (run_answers me cs requests' x end why fine own' later)
                  ∙ ap (λ l. accounted (w, requests) ++ l) (sym more)
            ]
          refl
  ]
