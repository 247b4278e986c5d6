-- ===== src/Worker/Jobs/Reporting.antt =====
-- Every job that a worker runs is reported once, under its identifier.
use distbuild.Common.{
  ◌≡◌, refl, subst, ◌∙◌, Bool, true, false, none, some, Option-cases, List, [], ◌∷◌, ◌++◌, Dict,
  lookup, insert, lookup-insert, Result, ok, err, Outcome, returns, panics, blocks, ◌andthen◌, inl,
  inr, arith,
}
use distbuild.Build.{BuildId, id_discrete}
use distbuild.Api.{JobSpec, JobResult}
use distbuild.Artifact.{Cache}
use distbuild.Filecache.{Files}
use distbuild.Worker.State.{WorkerState, add_artifacts, add_job_result}
use distbuild.Worker.Download.{DownloadError, download_artifacts}
use distbuild.Worker.Execute.{LinkError, Executed, link_all, execute_job}
use distbuild.Worker.Execute.Results.{FineAfter, execute_job-FineAfter}
use distbuild.Worker.Jobs.{
  FileFailure, RunError, Worker, World, failed_result, reports, executed, execute_linked,
  with_files, with_artifacts, download_files, run_job,
}

added_results :
    (cancelled : Bool) (ids : List BuildId) (s : WorkerState)
    → (add_artifacts cancelled ids s).finished_job ≡ s.finished_job
unfolding add_artifacts
added_results true ids s = refl
added_results false ids s = refl

-- The results that are kept stand under their own identifiers and have no error.
pub Own : Dict BuildId JobResult → Type 0
Own results =
    (id : BuildId) (res : JobResult)
    → lookup id_discrete results id ≡ some res
    → (res.id ≡ id) × (res.error ≡ none)

pub Own-insert :
    (results : Dict BuildId JobResult) (id : BuildId) (res : JobResult)
    → res.id ≡ id
    → res.error ≡ none
    → Own results
    → Own (insert id_discrete results id res)
unfolding Own
Own-insert results id res own good all k r e = elim (id_discrete id k) [
  | yes same ↦
      let this : res ≡ r = ground (arith, e, lookup-insert id_discrete results id k res) in
      subst (λ (r : JobResult). (r.id ≡ k) × (r.error ≡ none)) this (own ∙ same, good)
  | no other ↦ all k r (ground (arith, e, lookup-insert id_discrete results id k res))
]

pub Own-nil : Own []
unfolding Own lookup
Own-nil id res e = absurd (cc)

module _ {Tree : Type 0} where
  -- One more result to report, of the job, and the kept results are in order.
  unfoldable pub Reports : BuildId → List JobResult → Worker Tree → Type 0
  Reports id before w =
      (res : JobResult) × (w.state.finished_job ≡ before ++ res ∷ [])
      × (res.id ≡ id)
      × Own w.job_results

  ReportsAfter : BuildId → List JobResult → Outcome (Worker Tree) → Type 0
  ReportsAfter id before panics = Unit {0}
  ReportsAfter id before blocks = Unit {0}
  ReportsAfter id before (returns w) = Reports id before w

  reports-Reports :
      (world : World Tree) (id : BuildId) (res : JobResult) (w : Worker Tree)
      → world.cancelled ≡ false
      → res.id ≡ id
      → Own w.job_results
      → Reports id w.state.finished_job (reports world res w)
  unfolding Reports reports add_job_result
  reports-Reports world id res w goes own all = (res, ground (arith, goes), own, all)

  executed-Reports :
      (world : World Tree) (id : BuildId) (w : Worker Tree) (r : Executed Tree)
      → world.cancelled ≡ false
      → Own w.job_results
      → FineAfter id (returns r)
      → Reports id w.state.finished_job (executed world id w r)
  unfolding executed FineAfter
  executed-Reports world id w ((res, none), c) goes all (own, good) =
      reports-Reports world id res
        (record w { artifacts = c; job_results = insert id_discrete w.job_results id res }) goes own
        (Own-insert w.job_results id res own good all)
  executed-Reports world id w ((res, some e), c) goes all own =
      reports-Reports world id (record res { error = some (world.say (RunError.not_executed e)) })
        (record w { artifacts = c }) goes own all

  execute_linked-Reports :
      (world : World Tree) (id : BuildId) (job : JobSpec) (w : Worker Tree)
      (r : Files × Result LinkError (Unit {0}))
      → world.cancelled ≡ false
      → job.id ≡ id
      → Own w.job_results
      → ReportsAfter id w.state.finished_job (execute_linked world id job w r)
  unfolding execute_linked ReportsAfter
  execute_linked-Reports world id job w (files, linked) goes named all =
      later (execute_job world.machine world.execute_ends linked job.job w.artifacts) (
        subst
          (λ i.
            FineAfter i (execute_job world.machine world.execute_ends linked job.job w.artifacts))
          named (execute_job-FineAfter world.machine world.execute_ends linked job.job w.artifacts))
    where
      later :
          (o : Outcome (Executed Tree))
          → FineAfter id o
          → ReportsAfter id w.state.finished_job
              (o andthen λ r. returns (executed world id (record w { files = files }) r))
      later panics h = tt
      later blocks h = tt
      later (returns r) h = executed-Reports world id (record w { files = files }) r goes all h

  with_files-Reports :
      (world : World Tree) (id : BuildId) (job : JobSpec) (w : Worker Tree)
      (r : Files × Result FileFailure (Unit {0}))
      → world.cancelled ≡ false
      → job.id ≡ id
      → Own w.job_results
      → ReportsAfter id w.state.finished_job (with_files world id job w r)
  unfolding with_files ReportsAfter failed_result
  with_files-Reports world id job w (files, err e) goes named all =
      reports-Reports world id (failed_result id (world.say (RunError.files_missing e)))
        (record w { files = files }) goes refl all
  with_files-Reports world id job w (files, ok x) goes named all =
      execute_linked-Reports world id job (record w { files = files })
        (link_all world.link_ends job.source_files files) goes named all

  with_artifacts-Reports :
      (world : World Tree) (id : BuildId) (job : JobSpec) (w : Worker Tree)
      (r : (Cache Tree × Result DownloadError (Unit {0})) × List BuildId)
      → world.cancelled ≡ false
      → job.id ≡ id
      → Own w.job_results
      → ReportsAfter id w.state.finished_job (with_artifacts world id job w r)
  unfolding with_artifacts ReportsAfter failed_result
  with_artifacts-Reports world id job w ((c, err e), ids) goes named all =
      subst (λ before. Reports id before (reports world failed w'))
        (added_results world.cancelled ids w.state)
        (reports-Reports world id failed w' goes refl all)
    where
      failed : JobResult
      failed = failed_result id (world.say (RunError.artifacts_missing e))

      w' : Worker Tree
      w' = record w { artifacts = c; state = add_artifacts world.cancelled ids w.state }
  with_artifacts-Reports world id job w ((c, ok x), ids) goes named all =
      subst
        (λ before. ReportsAfter id before (
          download_files world.file_ends job.source_files w.files
          andthen with_files world id job w'))
        (added_results world.cancelled ids w.state)
        (later (download_files world.file_ends job.source_files w.files))
    where
      w' : Worker Tree
      w' = record w { artifacts = c; state = add_artifacts world.cancelled ids w.state }

      later :
          (o : Outcome (Files × Result FileFailure (Unit {0})))
          → ReportsAfter id w'.state.finished_job (o andthen with_files world id job w')
      later panics = tt
      later blocks = tt
      later (returns r) = with_files-Reports world id job w' r goes named all

  pub run_job-Reports :
      (world : World Tree) (id : BuildId) (job : JobSpec) (w w' : Worker Tree)
      → world.cancelled ≡ false
      → job.id ≡ id
      → Own w.job_results
      → run_job world id job w ≡ returns w'
      → Reports id w.state.finished_job w'
  unfolding run_job ReportsAfter Own
  run_job-Reports world id job w w' goes named all e =
      elim (Option-cases (lookup id_discrete w.job_results id)) [
        | inr (res, kept) ↦
            let same : reports world res w ≡ w' = ground (arith, e, kept) in
            subst (Reports id w.state.finished_job) same
              (reports-Reports world id res w goes (all id res kept).0 all)
        | inl new ↦
            let r = download_artifacts world.artifact_ends job.artifacts w.artifacts in
            let runs : with_artifacts world id job w r ≡ returns w' = ground (arith, e, new) in
            subst (ReportsAfter id w.state.finished_job) runs
              (with_artifacts-Reports world id job w r goes named all)
      ]
