-- ===== src/Dist/Build/Ready.antt =====
-- What the loop over the dependencies of a job has done when the job is scheduled.
use distbuild.Common.{
  ℕ, suc, ◌≡◌, ap, subst, ◌∙◌, true, false, some, List, [], ◌∷◌, get_elem?, All, Dict, lookup,
  insert, lookup-insert, ok, err, returns, Outcome-cases, Option-cases, inl, inr, arith,
}
use distbuild.Build.{BuildId, id_discrete}
use distbuild.Api.{WorkerId}
use distbuild.Scheduler.{Ref, PendingJob, Scheduler, Call, run}
use distbuild.Scheduler.Invariant.{Inv}
use distbuild.Scheduler.Runs.{Safe, run-Safe}
use distbuild.Scheduler.Results.{Settled, Settled-refl, Settled-trans, run-Settled}
use distbuild.Dist.Build.{Moment, meanwhile, is_finished, wait_for, located, gather}

abbrev pub Sound : Scheduler → Type 0
Sound s = Inv s × (s.is_stop ≡ false)

pub run-Sound :
    (cs : List Call) (s t : Scheduler) {given : List Ref}
    → Sound s
    → run cs s ≡ returns (given, t)
    → Sound t
run-Sound cs s t (inv, running) e = subst Safe e (run-Safe cs s running inv)

-- Time has passed: the scheduler is in order and no job went back.
abbrev pub Later : Scheduler → Scheduler → Type 0
Later s t = Sound t × Settled s t

pub Later-trans : (s t u : Scheduler) → Later s t → Later t u → Later s u
Later-trans s t u (_, f) (sound, g) = (sound, Settled-trans s t u f g)

pub meanwhile-Later :
    (cs : List Call) (s t : Scheduler) → Sound s → meanwhile cs s ≡ returns t → Later s t
unfolding meanwhile
meanwhile-Later cs s t sound e = elim (Outcome-cases (run cs s)) [
  | inl p ↦ absurd (ground arith)
  | inr (inl p) ↦ absurd (ground arith)
  | inr (inr ((given, u), p)) ↦
      let same : u ≡ t = ground arith in
      subst (Later s) same (run-Sound cs s u sound p, run-Settled cs s u sound.1 sound.0 p)
]

pub finished_stays :
    (s t : Scheduler) (ref : Ref)
    → Settled s t
    → is_finished (get_elem? s.pending ref) ≡ true
    → is_finished (get_elem? t.pending ref) ≡ true
unfolding is_finished
finished_stays s t ref settled h = elim (Option-cases (get_elem? s.pending ref)) [
  | inl missing ↦ absurd (ground arith)
  | inr (p, at) ↦
      let (p', at', _, kept) = settled ref p at in
      let done : p.finished ≡ true = ground arith in
      let done' : p'.finished ≡ true = ap (λ (q : PendingJob). q.finished) (kept done) ∙ done in
      ground arith
]

pub wait_for-finished :
    (m : Moment) (ref : Ref) (s t : Scheduler)
    → Sound s
    → wait_for m ref s ≡ returns (ok t)
    → Later s t × (is_finished (get_elem? t.pending ref) ≡ true)
unfolding wait_for
wait_for-finished m ref s t sound e = elim (Outcome-cases (meanwhile m.others s)) [
  | inl p ↦ absurd (ground arith)
  | inr (inl p) ↦ absurd (ground arith)
  | inr (inr (u, p)) ↦
      let same : u ≡ t = ground arith in
      let done : is_finished (get_elem? u.pending ref) ≡ true = ground arith in
      subst (λ t. Later s t × (is_finished (get_elem? t.pending ref) ≡ true)) same
        (meanwhile-Later m.others s u sound p, done)
]

pub located-Later :
    (m : Moment) (dep : BuildId) (s t : Scheduler) (w : WorkerId)
    → Sound s
    → located m dep s ≡ returns (w, t)
    → Later s t
unfolding located
located-Later m dep s t w sound e = elim (Outcome-cases (meanwhile m.between s)) [
  | inl p ↦ absurd (ground arith)
  | inr (inl p) ↦ absurd (ground arith)
  | inr (inr (u, p)) ↦
      let same : u ≡ t = ground arith in
      subst (Later s) same (meanwhile-Later m.between s u sound p)
]

-- The dependency has been scheduled, it has finished, and `artifacts` says where it lies.
pub record Ready (job_pending : Dict BuildId Ref) (artifacts : Dict BuildId WorkerId)
    (s : Scheduler) (dep : BuildId) : Type 0 where
  pub ref : Ref
  pub entry : lookup id_discrete job_pending dep ≡ some ref
  pub finished : is_finished (get_elem? s.pending ref) ≡ true
  pub worker : WorkerId
  pub at : lookup id_discrete artifacts dep ≡ some worker

-- What `artifacts` says of a dependency is only ever replaced.
abbrev Extends : Dict BuildId WorkerId → Dict BuildId WorkerId → Type 0
Extends a b =
    (d : BuildId) (w : WorkerId)
    → lookup id_discrete a d ≡ some w
    → (v : WorkerId) × (lookup id_discrete b d ≡ some v)

insert-Extends :
    (a : Dict BuildId WorkerId) (d : BuildId) (w : WorkerId) → Extends a (insert id_discrete a d w)
insert-Extends a d w d' w' e = elim (id_discrete d d') [
  | yes same ↦ (w, ground (arith, lookup-insert id_discrete a d d' w))
  | no other ↦ (w', ground (arith, lookup-insert id_discrete a d d' w))
]

-- The parts of a round for one dependency that goes on.
record Round (m : Moment) (job_pending : Dict BuildId Ref) (dep : BuildId) (s : Scheduler)
    : Type 0 where
  ref : Ref
  entry : lookup id_discrete job_pending dep ≡ some ref
  woken : Scheduler
  waited : wait_for m ref s ≡ returns (ok woken)
  worker : WorkerId
  after : Scheduler
  found : located m dep woken ≡ returns (worker, after)

gather-Round :
    (at : ℕ → Moment) (k : ℕ) (job_pending : Dict BuildId Ref) (dep : BuildId) (deps : List BuildId)
    (artifacts artifacts' : Dict BuildId WorkerId) (s t : Scheduler)
    → gather at k job_pending (dep ∷ deps) artifacts s ≡ returns (ok (artifacts', t))
    → (r : Round (at k) job_pending dep s) × (gather at
          (suc k)
          job_pending
          deps
          (insert id_discrete artifacts dep r.worker)
          r.after
        ≡ returns (ok (artifacts', t)))
unfolding gather
gather-Round at k job_pending dep deps artifacts artifacts' s t e =
    elim (Option-cases (lookup id_discrete job_pending dep)) [
      | inl missing ↦ absurd (ground arith)
      | inr (ref, entry) ↦ elim (Outcome-cases (wait_for (at k) ref s)) [
        | inl p ↦ absurd (ground arith)
        | inr (inl p) ↦ absurd (ground arith)
        | inr (inr (err x, p)) ↦ absurd (ground arith)
        | inr (inr (ok u, p)) ↦ elim (Outcome-cases (located (at k) dep u)) [
          | inl q ↦ absurd (ground arith)
          | inr (inl q) ↦ absurd (ground arith)
          | inr (inr ((w, v), q)) ↦ (
            record {
              ref = ref;
              entry = entry;
              woken = u;
              waited = p;
              worker = w;
              after = v;
              found = q;
            },
            ground arith,
          )
        ]
      ]
    ]

pub Gathers :
    Dict BuildId Ref
    → List BuildId
    → Dict BuildId WorkerId
    → Scheduler
    → Dict BuildId WorkerId
    → Scheduler
    → Type 0
Gathers job_pending deps artifacts s artifacts' t =
    Later s t × Extends artifacts artifacts' × All (Ready job_pending artifacts' t) deps

pub gather-Gathers :
    (at : ℕ → Moment) (k : ℕ) (job_pending : Dict BuildId Ref) (deps : List BuildId)
    (artifacts artifacts' : Dict BuildId WorkerId) (s t : Scheduler)
    → Sound s
    → gather at k job_pending deps artifacts s ≡ returns (ok (artifacts', t))
    → Gathers job_pending deps artifacts s artifacts' t
unfolding Gathers gather
gather-Gathers at k job_pending [] artifacts artifacts' s t sound e =
    let same : s ≡ t = ground arith in
    let same' : artifacts ≡ artifacts' = ground arith in
    (
      (subst Sound same sound, Settled-refl s t (ap (λ (s : Scheduler). s.pending) same)),
      subst (Extends artifacts) same' (λ d w h. (w, h)),
      tt,
    )
gather-Gathers at k job_pending (dep ∷ deps) artifacts artifacts' s t sound e =
    let (r, rest) = gather-Round at k job_pending dep deps artifacts artifacts' s t e in
    let (woken, done) = wait_for-finished (at k) r.ref s r.woken sound r.waited in
    let after = located-Later (at k) dep r.woken r.after r.worker woken.0 r.found in
    let artifacts'' = insert id_discrete artifacts dep r.worker in
    let (later, grows, ready) =
      gather-Gathers at (suc k) job_pending deps artifacts'' artifacts' r.after t after.0 rest in
    let (w, kept) =
      grows dep r.worker (ground (arith, lookup-insert id_discrete artifacts dep dep r.worker)) in
    (
      Later-trans s r.woken t woken (Later-trans r.woken r.after t after later),
      (λ d v h. let (v', h') = insert-Extends artifacts dep r.worker d v h in grows d v' h'),
      (
        record {
          ref = r.ref;
          entry = r.entry;
          finished =
              finished_stays r.after t r.ref later.1
                (finished_stays r.woken r.after r.ref after.1 done);
          worker = w;
          at = kept;
        },
        ready,
      ),
    )
