-- ===== src/Scheduler/Answered.antt =====
-- Where every completion comes with a result, each finished job has one.
use distbuild.Common.{
  ◌≡◌, sym, ap, subst, ◌∙◌, true, none, some, List, [], ◌∷◌, get_elem?, All, returns, Outcome-cases,
  Bool-cases, ◌++◌, false, Option-cases, inl, inr, arith,
}
use distbuild.Build.{BuildId}
use distbuild.Api.{JobResult}
use distbuild.Scheduler.{
  new_scheduler, PendingJob, Ref, Scheduler, Call, complete, report, schedule, pick, try_pick, step,
  run,
}
use distbuild.Scheduler.Invariant.{Inv}
use distbuild.Scheduler.Runs.{rest_of_run, step-Safe}
use distbuild.Scheduler.Results.{step-complete_done, first_result_stays}
use distbuild.Scheduler.Pending.{
  complete-pending, pick-pending, report-pending, schedule-pending, try_pick-pending,
}

abbrev pub Answers : Call → Type 0
Answers (complete id none) = ⊥
Answers _ = Unit {0}

unfoldable pub Answered : Scheduler → Type 0
Answered s =
    (ref : Ref) (p : PendingJob)
    → get_elem? s.pending ref ≡ some p
    → p.finished ≡ true
    → (job : JobResult) × (p.result ≡ some job)

run-one :
    (c : Call) (s t : Scheduler) (given : List Ref)
    → step c s ≡ returns (given, t)
    → run (c ∷ []) s ≡ returns (given ++ [], t)
unfolding run
run-one c s t given e = ground (arith, e)

complete-Answered :
    (id : BuildId) (job : JobResult) (s t : Scheduler) {given : List Ref}
    → s.is_stop ≡ false
    → Inv s
    → step (complete id (some job)) s ≡ returns (given, t)
    → Answered s
    → Answered t
unfolding Answered
complete-Answered id job s t {given} running inv e answered r q at done =
    elim (complete-pending id (some job) s t inv e r q at) [
      | inr old ↦ answered r q old done
      | inl own ↦
          let (ref, p, at', own', _, result) = step-complete_done id (some job) s t running inv e in
          let (inv', _) = step-Safe (complete id (some job)) s t running inv e in
          let same_ref : ref ≡ r =
            ground (arith, inv'.owners ref p at', inv'.owners r q at, own, own') in
          let same : p ≡ q = ground (arith, at, at', same_ref) in
          let first : ((o : PendingJob) → get_elem? s.pending r ≡ some o → o.finished ≡ false)
              → q.result ≡ some job =
            λ fresh.
              ap (λ (p : PendingJob). p.result) (sym same)
              ∙ result (
                  subst
                    (λ k. (o : PendingJob) → get_elem? s.pending k ≡ some o → o.finished ≡ false)
                    (sym same_ref) fresh) in
          elim (Option-cases (get_elem? s.pending r)) [
            | inl fresh ↦ (job, first (λ o h. absurd (ground (arith, fresh, h))))
            | inr (o, old) ↦ elim (Bool-cases o.finished) [
              | inr unfinished ↦ (job, first (λ o' h. ground (arith, old, h, unfinished)))
              | inl ended ↦
                  let (res, has) = answered r o old ended in
                  let kept =
                    first_result_stays (complete id (some job) ∷ []) s t (given ++ []) r o running
                      inv (run-one (complete id (some job)) s t given e) old ended in
                  (res, ground (arith, kept, at, has))
            ]
          ]
    ]

same-Answered : (s t : Scheduler) → t.pending ≡ s.pending → Answered s → Answered t
unfolding Answered
same-Answered s t e answered r q at = answered r q (ap (λ l. get_elem? l r) (sym e) ∙ at)

step-Answered :
    (c : Call) (s t : Scheduler) {given : List Ref}
    → s.is_stop ≡ false
    → Inv s
    → Answers c
    → step c s ≡ returns (given, t)
    → Answered s
    → Answered t
unfolding Answered
step-Answered (complete id none) s t running inv given e answered = absurd given
step-Answered (complete id (some job)) s t running inv given e answered =
    complete-Answered id job s t running inv e answered
step-Answered (report w id) s t running inv given e answered =
    same-Answered s t (report-pending w id s t e) answered
step-Answered (schedule spec) s t running inv given e answered =
    λ r q at done. answered r q (schedule-pending spec s t e r q at done) done
step-Answered (pick done sel) s t running inv given e answered =
    same-Answered s t (pick-pending done sel s t e) answered
step-Answered (try_pick done sel) s t running inv given e answered =
    same-Answered s t (try_pick-pending done sel s t e) answered

pub run-Answered :
    (cs : List Call) (s t : Scheduler) {given : List Ref}
    → s.is_stop ≡ false
    → Inv s
    → All Answers cs
    → run cs s ≡ returns (given, t)
    → Answered s
    → Answered t
unfolding run
run-Answered [] s t running inv answers e answered =
    let same : s ≡ t = cc in subst Answered same answered
run-Answered (c ∷ cs) s t {given} running inv (now, later) e answered =
    elim (Outcome-cases (step c s)) [
      | inl p ↦ absurd (ground arith)
      | inr (inl p) ↦ absurd (ground arith)
      | inr (inr ((given', u), p)) ↦
          let (_, rest, _) = rest_of_run c cs s given' u p e in
          let (inv', running') = step-Safe c s u running inv p in
          run-Answered cs u t running' inv' later rest
            (step-Answered c s u running inv now p answered)
    ]

pub new_scheduler-Answered : Answered new_scheduler
unfolding Answered new_scheduler
new_scheduler-Answered ref p at done = absurd (cc)
