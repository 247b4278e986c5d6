-- ===== src/Dist/Build/Course.antt =====
-- What the loop over the jobs does to the scheduler is a history of calls.
use distbuild.Common.{
  ℕ, suc, ◌≡◌, subst, List, [], ◌∷◌, All, Dict, lookup, insert, ok, err, returns, Outcome-cases,
  Option-cases, inl, inr, arith,
}
use distbuild.Build.{BuildId, Text, Job, id_discrete}
use distbuild.Api.{WorkerId, JobSpec}
use distbuild.Scheduler.{Ref, Scheduler, Call, schedule, run, locate_artifact, schedule_job}
use distbuild.Scheduler.Scheduling.{run-schedule_job}
use distbuild.Dist.Build.{
  Moment, Surroundings, meanwhile, wait_for, located, gather, schedule_one, schedule_all,
}

-- Every call that others make during the loop fits.
abbrev pub FitsAround : (Call → Type 0) → Surroundings → Type 0
FitsAround Fits around =
    ((i k : ℕ) → All Fits (around.dep i k).others × All Fits (around.dep i k).between)
    × ((i : ℕ) → All Fits (around.before i))

-- Whatever calls that fit keep, the loop keeps.
module _ (Fits : Call → Type 0) (P : Scheduler → Type 0)
    (keeps : (cs : List Call) (s t : Scheduler) (given : List Ref)
      → All Fits cs
      → run cs s ≡ returns (given, t)
      → P s
      → P t)
    (fits : (spec : JobSpec) → Fits (schedule spec)) where
  pub meanwhile_keeps :
      (cs : List Call) (s t : Scheduler) → All Fits cs → meanwhile cs s ≡ returns t → P s → P t
  unfolding meanwhile
  meanwhile_keeps cs s t fit e h = elim (Outcome-cases (run cs s)) [
    | inl p ↦ absurd (ground arith)
    | inr (inl p) ↦ absurd (ground arith)
    | inr (inr ((given, u), p)) ↦
        let same : u ≡ t = ground arith in subst P same (keeps cs s u given fit p h)
  ]

  wait_for_keeps :
      (m : Moment) (ref : Ref) (s t : Scheduler)
      → All Fits m.others
      → wait_for m ref s ≡ returns (ok t)
      → P s
      → P t
  unfolding wait_for
  wait_for_keeps m ref s t fit e h = elim (Outcome-cases (meanwhile m.others s)) [
    | inl p ↦ absurd (ground arith)
    | inr (inl p) ↦ absurd (ground arith)
    | inr (inr (u, p)) ↦
        let same : u ≡ t = ground arith in subst P same (meanwhile_keeps m.others s u fit p h)
  ]

  located_keeps :
      (m : Moment) (dep : BuildId) (s t : Scheduler) (w : WorkerId)
      → All Fits m.between
      → located m dep s ≡ returns (w, t)
      → P s
      → P t
  unfolding located
  located_keeps m dep s t w fit e h = elim (Outcome-cases (meanwhile m.between s)) [
    | inl p ↦ absurd (ground arith)
    | inr (inl p) ↦ absurd (ground arith)
    | inr (inr (u, p)) ↦ elim (Outcome-cases (locate_artifact m.random dep u)) [
      | inl q ↦ absurd (ground arith)
      | inr (inl q) ↦ absurd (ground arith)
      | inr (inr (found, q)) ↦
          let same : u ≡ t = ground arith in subst P same (meanwhile_keeps m.between s u fit p h)
    ]
  ]

  gather_keeps :
      (at : ℕ → Moment) (k : ℕ) (job_pending : Dict BuildId Ref) (deps : List BuildId)
      (artifacts artifacts' : Dict BuildId WorkerId) (s t : Scheduler)
      → ((k : ℕ) → All Fits (at k).others × All Fits (at k).between)
      → gather at k job_pending deps artifacts s ≡ returns (ok (artifacts', t))
      → P s
      → P t
  unfolding gather
  gather_keeps at k job_pending [] artifacts artifacts' s t fit e h =
      let same : s ≡ t = ground arith in subst P same h
  gather_keeps at k job_pending (dep ∷ deps) artifacts artifacts' s t fit e h =
      elim (Option-cases (lookup id_discrete job_pending dep)) [
        | inl missing ↦ absurd (ground arith)
        | inr (ref, found) ↦ elim (Outcome-cases (wait_for (at k) ref s)) [
          | inl p ↦ absurd (ground arith)
          | inr (inl p) ↦ absurd (ground arith)
          | inr (inr (err x, p)) ↦ absurd (ground arith)
          | inr (inr (ok u, p)) ↦ elim (Outcome-cases (located (at k) dep u)) [
            | inl q ↦ absurd (ground arith)
            | inr (inl q) ↦ absurd (ground arith)
            | inr (inr ((w, v), q)) ↦
                gather_keeps at (suc k) job_pending deps (insert id_discrete artifacts dep w)
                  artifacts' v t fit (ground arith)
                  (located_keeps (at k) dep u v w (fit k).1 q
                    (wait_for_keeps (at k) ref s u (fit k).0 p h))
          ]
        ]
      ]

  schedule_one_keeps :
      (around : Surroundings) (i : ℕ) (job : Job) (files : Dict BuildId Text)
      (job_pending job_pending' : Dict BuildId Ref) (s t : Scheduler)
      → FitsAround Fits around
      → schedule_one around i job files job_pending s ≡ returns (ok (job_pending', t))
      → P s
      → P t
  unfolding schedule_one
  schedule_one_keeps around i job files job_pending job_pending' s t fit e h =
      elim (Outcome-cases (gather (around.dep i) 0 job_pending job.deps [] s)) [
        | inl p ↦ absurd (ground arith)
        | inr (inl p) ↦ absurd (ground arith)
        | inr (inr (err x, p)) ↦ absurd (ground arith)
        | inr (inr (ok (artifacts, u), p)) ↦ elim (Outcome-cases (meanwhile (around.before i) u)) [
          | inl q ↦ absurd (ground arith)
          | inr (inl q) ↦ absurd (ground arith)
          | inr (inr (v, q)) ↦
              let spec : JobSpec = record {
                source_files = files;
                artifacts = artifacts;
                job = job;
              } in
              elim (Outcome-cases (schedule_job spec v)) [
                | inl r ↦ absurd (ground arith)
                | inr (inl r) ↦ absurd (ground arith)
                | inr (inr ((ref, z), r)) ↦
                    let same : z ≡ t = ground arith in
                    subst P same (
                      keeps (schedule spec ∷ []) v z [] (fits spec, tt)
                        (run-schedule_job spec v z ref r)
                        (meanwhile_keeps (around.before i) u v (fit.1 i) q (
                          gather_keeps (around.dep i) 0 job_pending job.deps [] artifacts s u
                            (fit.0 i) p h)))
              ]
        ]
      ]

  pub schedule_all_keeps :
      (around : Surroundings) (i : ℕ) (jobs : List Job) (files : List (Dict BuildId Text))
      (job_pending job_pending' : Dict BuildId Ref) (s t : Scheduler)
      → FitsAround Fits around
      → schedule_all around i jobs files job_pending s ≡ returns (ok (job_pending', t))
      → P s
      → P t
  unfolding schedule_all
  schedule_all_keeps around i [] files job_pending job_pending' s t fit e h =
      let same : s ≡ t = ground arith in subst P same h
  schedule_all_keeps around i (job ∷ jobs) [] job_pending job_pending' s t fit e h =
      absurd (ground arith)
  schedule_all_keeps around i (job ∷ jobs) (f ∷ files) job_pending job_pending' s t fit e h =
      elim (Outcome-cases (schedule_one around i job f job_pending s)) [
        | inl p ↦ absurd (ground arith)
        | inr (inl p) ↦ absurd (ground arith)
        | inr (inr (err x, p)) ↦ absurd (ground arith)
        | inr (inr (ok (linked, u), p)) ↦
            schedule_all_keeps around (suc i) jobs files linked job_pending' u t fit (ground arith)
              (schedule_one_keeps around i job f job_pending linked s u fit p h)
      ]
