-- ===== src/Dist/Build/Calm.antt =====
-- The loop over the jobs does not panic.
use distbuild.Common.{
  ℕ, suc, ◌≡◌, ◌≢◌, sym, subst, ◌∙◌, some, List, [], ◌∷◌, ◌++◌, map, length, get_elem?, Dict,
  insert, lookup-insert, lookup-insert_ne, Result, ok, err, Outcome, returns, panics, blocks,
  Outcome-cases, inl, inr, ◌⊎◌, length-map, Memᴰ, arith,
}
use distbuild.Build.{Text, BuildId, id_discrete, Job, Graph}
use distbuild.Build.TopSort.{top_sort}
use distbuild.Build.TopSort.Order.{top_sort-DepsFirst}
use distbuild.Build.TopSort.Visits.{DepsFirst, IsAcyclic}
use distbuild.Api.{WorkerId, JobSpec}
use distbuild.Scheduler.{Ref, PendingJob, Scheduler, schedule, schedule_job}
use distbuild.Scheduler.Results.{Settled, run-Settled}
use distbuild.Scheduler.Prompt.{Whole, Prompt, run-Prompt}
use distbuild.Scheduler.Scheduling.{run-schedule_job, schedule_job-cases}
use distbuild.Dist.Build.{
  Surroundings, gather, schedule_one, schedule_all, job_source_files, file_name_to_id,
}
use distbuild.Dist.Build.Ready.{Sound, run-Sound, Later, Later-trans}
use distbuild.Dist.Build.Waits.{Linked, keep_link, meanwhile-cases}
use distbuild.Dist.Build.Gathered.{Calm, gather-Calm}

-- The other callers never leave a completion without its report when the loop goes on.
pub record IsTidy (around : Surroundings) : Type 0 where
  pub waits : (i k : ℕ) → Whole ((around.dep i k).others ++ (around.dep i k).between)
  pub before : (i : ℕ) → Whole (around.before i)

scheduled-Later :
    (spec : JobSpec) (s t : Scheduler) (ref : Ref)
    → Sound s
    → Prompt s
    → schedule_job spec s ≡ returns (ref, t)
    → Later s t × Prompt t
scheduled-Later spec s t ref sound prompt e =
    let ran = run-schedule_job spec s t ref e in
    (
      (
        run-Sound (schedule spec ∷ []) s t sound ran,
        run-Settled (schedule spec ∷ []) s t sound.1 sound.0 ran,
      ),
      run-Prompt (schedule spec ∷ []) s t [] sound.1 sound.0 ran tt prompt,
    )

-- A round that goes on has linked its own job and kept the links of those before.
Linking :
    BuildId
    → Dict BuildId Ref
    → Scheduler
    → Outcome (Result (Unit {0}) (Dict BuildId Ref × Scheduler))
    → Type 0
Linking id job_pending s panics = ⊥
Linking id job_pending s blocks = Unit {0}
Linking id job_pending s (returns (err _)) = Unit {0}
Linking id job_pending s (returns (ok (job_pending', t))) =
    Sound t
    × Prompt t
    × ((d : BuildId) → (id ≡ d) ⊎ Linked job_pending s d → Linked job_pending' t d)

linked_more :
    (job_pending : Dict BuildId Ref) (id : BuildId) (ref : Ref) (p : PendingJob) (s t : Scheduler)
    → get_elem? t.pending ref ≡ some p
    → p.job.id ≡ id
    → Settled s t
    → (d : BuildId) → (id ≡ d) ⊎ Linked job_pending s d
    → Linked (insert id_discrete job_pending id ref) t d
linked_more job_pending id ref p s t at own settled d h = elim (id_discrete id d) [
  | yes same ↦ record {
    ref = ref;
    job = p;
    entry = ground (arith, lookup-insert id_discrete job_pending id d ref);
    at = at;
    own = own ∙ same;
  }
  | no other ↦ elim h [
    | inl same ↦ absurd (other same)
    | inr l ↦
        let l' = keep_link job_pending s t d settled l in
        record {
          ref = l'.ref;
          job = l'.job;
          entry = lookup-insert_ne id_discrete job_pending id d ref other ∙ l'.entry;
          at = l'.at;
          own = l'.own;
        }
  ]
]

schedule_one-Linking :
    (around : Surroundings) (i : ℕ) (job : Job) (files : Dict BuildId Text)
    (job_pending : Dict BuildId Ref) (s : Scheduler)
    → Sound s
    → Prompt s
    → IsTidy around
    → ((d : BuildId) → Memᴰ d job.deps → Linked job_pending s d)
    → Linking job.id job_pending s (schedule_one around i job files job_pending s)
unfolding schedule_one Linking Calm
schedule_one-Linking around i job files job_pending s sound prompt tidy links =
    elim (Outcome-cases gathered) [
      | inl p ↦ absurd (subst (Calm s) p calm)
      | inr (inl p) ↦
          let e : schedule_one around i job files job_pending s ≡ blocks = ground (arith, p) in
          subst (Linking job.id job_pending s) (sym e) tt
      | inr (inr (err x, p)) ↦
          let e : schedule_one around i job files job_pending s ≡ returns (err x) =
            ground (arith, p) in
          subst (Linking job.id job_pending s) (sym e) tt
      | inr (inr (ok (artifacts, t), p)) ↦
          let (later, prompt') = subst (Calm s) p calm in
          elim (meanwhile-cases (around.before i) t later.0) [
            | inl q ↦
                let e : schedule_one around i job files job_pending s ≡ blocks =
                  ground (arith, p, q) in
                subst (Linking job.id job_pending s) (sym e) tt
            | inr (u, given, ran, q, later') ↦
                let spec : JobSpec = record {
                  source_files = files;
                  artifacts = artifacts;
                  job = job;
                } in
                let prompt'' =
                  run-Prompt (around.before i) t u given later.0.1 later.0.0 ran (tidy.before i)
                    prompt' in
                elim (schedule_job-cases spec u later'.0.1 later'.0.0) [
                  | inl r ↦
                      let e : schedule_one around i job files job_pending s ≡ blocks =
                        ground (arith, p, q, r) in
                      subst (Linking job.id job_pending s) (sym e) tt
                  | inr (ref, v, pending, r, at, own) ↦
                      let (later'', prompt''') = scheduled-Later spec u v ref later'.0 prompt'' r in
                      let e : schedule_one around i job files job_pending s
                          ≡ returns (ok (insert id_discrete job_pending job.id ref, v)) =
                        ground (arith, p, q, r) in
                      let past = Later-trans s t v later (Later-trans t u v later' later'') in
                      subst (Linking job.id job_pending s) (sym e) (
                        past.0,
                        prompt''',
                        linked_more job_pending job.id ref pending s v at own past.1,
                      )
                ]
          ]
    ]
  where
    gathered : Outcome (Result (Unit {0}) (Dict BuildId WorkerId × Scheduler))
    gathered = gather (around.dep i) 0 job_pending job.deps [] s

    calm : Calm s gathered
    calm = gather-Calm (around.dep i) 0 job_pending job.deps [] s sound prompt (tidy.waits i) links

schedule_all-Calm :
    (around : Surroundings) (i : ℕ) (before : List BuildId) (jobs : List Job)
    (files : List (Dict BuildId Text)) (job_pending : Dict BuildId Ref) (s : Scheduler)
    → Sound s
    → Prompt s
    → IsTidy around
    → length files ≡ length jobs
    → DepsFirst before jobs
    → ((d : BuildId) → Memᴰ d before → Linked job_pending s d)
    → schedule_all around i jobs files job_pending s ≢ panics
unfolding schedule_all Linking
schedule_all-Calm around i before [] files job_pending s sound prompt tidy size first links e =
    absurd (cc)
schedule_all-Calm around i before (job ∷ jobs) [] job_pending s sound prompt tidy size first links
      e =
    absurd (omega (arith, size))
schedule_all-Calm around i before (job ∷ jobs) (f ∷ files) job_pending s sound prompt tidy size
      first links e =
    elim (Outcome-cases (schedule_one around i job f job_pending s)) [
      | inl p ↦ subst (Linking job.id job_pending s) p linking
      | inr (inl p) ↦ absurd (ground arith)
      | inr (inr (err x, p)) ↦ absurd (ground arith)
      | inr (inr (ok (job_pending', t), p)) ↦
          let (sound', prompt', kept) = subst (Linking job.id job_pending s) p linking in
          let goes : schedule_all around (suc i) jobs files job_pending' t ≡ panics =
            ground arith in
          schedule_all-Calm around (suc i) (job.id ∷ before) jobs files job_pending' t sound'
            prompt' tidy (omega (arith, size)) first.1 (λ d m. kept d (own_or_before d m)) goes
    ]
  where
    linking : Linking job.id job_pending s (schedule_one around i job f job_pending s)
    linking =
        schedule_one-Linking around i job f job_pending s sound prompt tidy
          (λ d m. links d (first.0 d m))

    own_or_before : (d : BuildId) → Memᴰ d (job.id ∷ before) → (job.id ≡ d) ⊎ Linked job_pending s d
    own_or_before d (Memᴰ.head same) = inl (sym same)
    own_or_before d (Memᴰ.tail m) = inr (links d m)

-- For an acyclic graph whose jobs have only each other as dependencies, on a running scheduler in
-- order, the loop over the sorted jobs does not panic, whatever other callers do, provided that they
-- leave no completion of a job without its report at the moments when the loop goes on.
pub loop_never_panics :
    (rank : BuildId → ℕ) (g : Graph) (jobs : List Job) (around : Surroundings) (s : Scheduler)
    → IsAcyclic rank g.jobs
    → top_sort g.jobs ≡ some jobs
    → Sound s
    → Prompt s
    → IsTidy around
    → schedule_all around 0 jobs (map (job_source_files (file_name_to_id g)) jobs) [] s ≢ panics
loop_never_panics rank g jobs around s acyclic sorted sound prompt tidy =
    schedule_all-Calm around 0 [] jobs (map (job_source_files (file_name_to_id g)) jobs) [] s sound
      prompt tidy (length-map (job_source_files (file_name_to_id g)) jobs)
      (top_sort-DepsFirst rank g.jobs jobs acyclic sorted) (λ d m. elim m [ ])
