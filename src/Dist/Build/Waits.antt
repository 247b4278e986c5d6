-- ===== src/Dist/Build/Waits.antt =====
-- How the wait for one dependency and the search for its artifact may end.
use mathlib.Core.List.{append-nil}
use distbuild.Common.{
  ◌≡◌, sym, ap, subst, ◌∙◌, true, some, List, [], ◌++◌, get_elem?, Dict, lookup, ok, err, returns,
  blocks, Outcome-cases, Bool-cases, inl, inr, ◌⊎◌, arith,
}
use distbuild.Build.{BuildId, id_discrete}
use distbuild.Api.{WorkerId, JobSpec}
use distbuild.Scheduler.{Ref, PendingJob, Scheduler, Call, run, locate_artifact}
use distbuild.Scheduler.Runs.{Safe, run-Safe}
use distbuild.Scheduler.Results.{Settled, run-Settled}
use distbuild.Scheduler.Prompt.{
  Whole, Prompt, PromptBut, Prompt-PromptBut, PromptBut-Prompt, run-PromptBut,
  locate_artifact-Prompt,
}
use distbuild.Dist.Build.{Moment, meanwhile, is_finished, wait_for, located}
use distbuild.Dist.Build.Ready.{Sound, run-Sound, Later, finished_stays}

-- `jobPending` leads to a pending job of that identifier.
pub record Linked (job_pending : Dict BuildId Ref) (s : Scheduler) (d : BuildId) : Type 0 where
  pub ref : Ref
  pub job : PendingJob
  pub entry : lookup id_discrete job_pending d ≡ some ref
  pub at : get_elem? s.pending ref ≡ some job
  pub own : job.job.id ≡ d

abbrev pub keep_link :
    (job_pending : Dict BuildId Ref) (s t : Scheduler) (d : BuildId)
    → Settled s t
    → Linked job_pending s d
    → Linked job_pending t d
keep_link job_pending s t d settled l =
    let (p, at, same, _) = settled l.ref l.job l.at in
    record {
      ref = l.ref;
      job = p;
      entry = l.entry;
      at = at;
      own = ap (λ (j : JobSpec). j.id) same ∙ l.own;
    }

pub meanwhile-cases :
    (cs : List Call) (s : Scheduler)
    → Sound s
    → (meanwhile cs s ≡ blocks)
      ⊎ ((t : Scheduler) × (given : List Ref) × (run cs s ≡ returns (given, t))
          × (meanwhile cs s ≡ returns t)
          × Later s t)
unfolding meanwhile
meanwhile-cases cs s sound = elim (Outcome-cases (run cs s)) [
  | inl p ↦ absurd (subst Safe p (run-Safe cs s sound.1 sound.0))
  | inr (inl p) ↦ inl (ground arith)
  | inr (inr ((given, t), p)) ↦
      inr (
        t,
        given,
        p,
        ground arith,
        (run-Sound cs s t sound p, run-Settled cs s t sound.1 sound.0 p),
      )
]

-- What the wait for one dependency leads to, when it does not block.
abbrev pub Woken : Moment → Ref → Scheduler → Scheduler → Type 0
Woken m ref s t = Later s t × (is_finished (get_elem? t.pending ref) ≡ true) × PromptBut m.between t

pub wait_for-cases :
    (m : Moment) (ref : Ref) (s : Scheduler)
    → Sound s
    → Prompt s
    → Whole (m.others ++ m.between)
    → (wait_for m ref s ≡ blocks)
      ⊎ (wait_for m ref s ≡ returns (err tt))
      ⊎ ((t : Scheduler) × (wait_for m ref s ≡ returns (ok t)) × Woken m ref s t)
unfolding wait_for
wait_for-cases m ref s sound prompt whole = elim (meanwhile-cases m.others s sound) [
  | inl p ↦ inl (ground arith)
  | inr (t, given, e, p, later) ↦
      let still =
        run-PromptBut m.others m.between s t sound.1 sound.0 e whole
          (Prompt-PromptBut (m.others ++ m.between) s prompt) in
      elim (Bool-cases (is_finished (get_elem? t.pending ref))) [
        | inl done ↦ elim (Bool-cases m.done) [
          | inr goes ↦ inr (inr (t, ground arith, (later, done, still)))
          | inl closed ↦ elim (Bool-cases m.prefers_done) [
            | inl taken ↦ inr (inl (ground arith))
            | inr other ↦ inr (inr (t, ground arith, (later, done, still)))
          ]
        ]
        | inr waiting ↦ elim (Bool-cases m.done) [
          | inl closed ↦ inr (inl (ground arith))
          | inr goes ↦ inl (ground arith)
        ]
      ]
]

finished_job :
    (s : Scheduler) (ref : Ref) (p : PendingJob)
    → get_elem? s.pending ref ≡ some p
    → is_finished (get_elem? s.pending ref) ≡ true
    → p.finished ≡ true
unfolding is_finished
finished_job s ref p at h = ground arith

pub located-cases :
    (m : Moment) (dep : BuildId) (job_pending : Dict BuildId Ref) (s : Scheduler)
    → Sound s
    → PromptBut m.between s
    → Whole m.between
    → (l : Linked job_pending s dep) → is_finished (get_elem? s.pending l.ref) ≡ true
    → (located m dep s ≡ blocks)
      ⊎ ((w : WorkerId) × (t : Scheduler) × (located m dep s ≡ returns (w, t))
          × Later s t
          × Prompt t)
unfolding located
located-cases m dep job_pending s sound prompt whole l done =
    elim (meanwhile-cases m.between s sound) [
      | inl p ↦ inl (ground arith)
      | inr (t, given, e, p, later) ↦
          let now = PromptBut-Prompt t (
            run-PromptBut m.between [] s t sound.1 sound.0 e
              (subst Whole (sym (append-nil m.between)) whole)
              (subst (λ cs. PromptBut cs s) (sym (append-nil m.between)) prompt)) in
          let l' = keep_link job_pending s t dep later.1 l in
          let done' = finished_job t l'.ref l'.job l'.at (finished_stays s t l.ref later.1 done) in
          let (w, found) =
            locate_artifact-Prompt m.random t l'.ref l'.job later.0.1 now l'.at done' in
          let found' = subst (λ d. locate_artifact m.random d t ≡ returns (some w)) l'.own found in
          inr (w, t, ground (arith, found'), later, now)
    ]
