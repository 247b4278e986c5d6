-- ===== src/Dist/Heartbeat/Reported.antt =====
-- What the coordinator knows after a heartbeat.
use distbuild.Common.{
  ℕ, suc, ◌≡◌, refl, sym, ap, ◌∙◌, true, Option, some, List, [], ◌∷◌, ◌++◌, All, All-map, get_elem?,
  lookup, is_some, returns, blocks, inl, inr, ◌⊎◌, arith,
}
use distbuild.Build.{BuildId, id_discrete}
use distbuild.Api.{WorkerId, JobSpec, JobResult}
use distbuild.Scheduler.{Ref, PendingJob, Scheduler, Call, complete, report, run}
use distbuild.Scheduler.Invariant.{Inv}
use distbuild.Scheduler.Runs.{step-Safe, first_of_run, rest_of_run}
use distbuild.Scheduler.Results.{Settled, Settled-refl, run-Settled, step-complete_done}
use distbuild.Dist.Build.Ready.{Sound, Later, Later-trans}
use distbuild.Dist.Build.Waits.{meanwhile-cases}
use distbuild.Dist.Heartbeat.{Surroundings, complete_among, finish_jobs}

-- The identifier has a pending job, with a property of it.
pub record Entry (P : PendingJob → Type 0) (s : Scheduler) (id : BuildId) : Type 0 where
  pub ref : Ref
  pub job : PendingJob
  pub at : get_elem? s.pending ref ≡ some job
  pub own : job.job.id ≡ id
  pub holds : P job

abbrev pub Known : Scheduler → BuildId → Type 0
Known s id = Entry (λ p. Unit {0}) s id

abbrev pub Finished : Scheduler → BuildId → Type 0
Finished s id = Entry (λ p. p.finished ≡ true) s id

keep-Known : (s t : Scheduler) (id : BuildId) → Settled s t → Known s id → Known t id
keep-Known s t id settled k =
    let (p, at, same, _) = settled k.ref k.job k.at in
    record {
      ref = k.ref;
      job = p;
      at = at;
      own = ap (λ (j : JobSpec). j.id) same ∙ k.own;
      holds = tt;
    }

keep-Finished : (s t : Scheduler) (id : BuildId) → Settled s t → Finished s id → Finished t id
keep-Finished s t id settled f =
    let (p, at, same, kept) = settled f.ref f.job f.at in
    record {
      ref = f.ref;
      job = p;
      at = at;
      own = ap (λ (j : JobSpec). j.id) same ∙ f.own;
      holds = ap (λ (q : PendingJob). q.finished) (kept f.holds) ∙ f.holds;
    }

complete_rest :
    (id : BuildId) (res : Option JobResult) (cs : List Call) (s t : Scheduler) {given : List Ref}
    → Sound s
    → run (complete id res ∷ cs) s ≡ returns (given, t)
    → Finished t id
complete_rest id res cs s t sound e =
    let (given', u, p) = first_of_run (complete id res) cs s e in
    let (given'', rest, _) = rest_of_run (complete id res) cs s given' u p e in
    let (inv, running) = step-Safe (complete id res) s u sound.1 sound.0 p in
    let (ref, q, at, own, done, _) = step-complete_done id res s u sound.1 sound.0 p in
    keep-Finished u t id (run-Settled cs u t running inv rest)
      record { ref = ref; job = q; at = at; own = own; holds = done }

lookup-Known :
    (s : Scheduler) (id : BuildId)
    → Inv s
    → Known s id
    → is_some (lookup id_discrete s.jobs id) ≡ true
lookup-Known s id inv k =
    let e = inv.owners k.ref k.job k.at in
    ap (λ i. is_some (lookup id_discrete s.jobs i)) (sym k.own) ∙ ap is_some e

complete_among-cases :
    (before within : List Call) (w : WorkerId) (id : BuildId) (res : Option JobResult)
    (s : Scheduler)
    → Sound s
    → Known s id
    → (complete_among before within w id res s ≡ blocks)
      ⊎ ((t : Scheduler) × (complete_among before within w id res s ≡ returns (t, true))
          × Later s t
          × Finished t id)
unfolding complete_among
complete_among-cases before within w id res s sound known = elim (meanwhile-cases before s sound) [
  | inl p ↦ inl (ground (arith, p))
  | inr (u, _, _, p, later) ↦
      let exist = lookup-Known u id later.0.0 (keep-Known s u id later.1 known) in
      elim (meanwhile-cases (complete id res ∷ within ++ report w id ∷ []) u later.0) [
        | inl q ↦ inl (ground (arith, p, q))
        | inr (t, _, ran, q, later') ↦ inr (
          t,
          ground (arith, p, q, exist),
          Later-trans s u t later later',
          complete_rest id res (within ++ report w id ∷ []) u t later.0 ran,
        )
      ]
]

-- When the scheduler knows every job that the worker reports as finished, the reports do not panic, and
-- once they are made all these jobs have finished.
pub finish_jobs-Finished :
    (around : Surroundings) (i : ℕ) (w : WorkerId) (jobs : List JobResult) (s : Scheduler)
    → Sound s
    → All (λ (j : JobResult). Known s j.id) jobs
    → (finish_jobs around i w jobs s ≡ blocks)
      ⊎ ((t : Scheduler) × (finish_jobs around i w jobs s ≡ returns t)
          × Later s t
          × All (λ (j : JobResult). Finished t j.id) jobs)
unfolding finish_jobs
finish_jobs-Finished around i w [] s sound known = inr (s, refl, (sound, Settled-refl s s refl), tt)
finish_jobs-Finished around i w (job ∷ jobs) s sound (known, more) =
    elim (complete_among-cases (around.before i) (around.within i) w job.id (some job) s sound
      known) [
        | inl p ↦ inl (ground (arith, p))
        | inr (u, p, later, done) ↦
            elim (finish_jobs-Finished around (suc i) w jobs u later.0
              (All-map jobs (λ j k. keep-Known s u j.id later.1 k) more)) [
                | inl q ↦ inl (ground (arith, p, q))
                | inr (t, q, later', all) ↦ inr (
                  t,
                  ground (arith, p, q),
                  Later-trans s u t later later',
                  (keep-Finished u t job.id later'.1 done, all),
                )
              ]
      ]
