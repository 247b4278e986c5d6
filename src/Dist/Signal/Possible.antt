-- ===== src/Dist/Signal/Possible.antt =====
-- The goroutines of a build whose finished jobs have results.
use distbuild.Common.{
  ℕ, ◌≡◌, sym, subst, Bool, true, Option, some, List, [], ◌∷◌, All, get_elem?, lookup, Dict,
  Bool-cases, Option-cases, inl, inr, arith,
}
use distbuild.Build.{BuildId, Job, id_discrete}
use distbuild.Api.{JobResult}
use distbuild.Scheduler.{Ref, Scheduler}
use distbuild.Scheduler.Answered.{Answered}
use distbuild.Dist.Build.{is_finished}
use distbuild.Dist.Reports.{Turn, proceed, cancel}
use distbuild.Dist.Reports.Turns.{IsPossible}
use distbuild.Dist.Signal.{pending_of, pending_at, result_of, result_at, has_ended, possible}

pub possible-IsPossible :
    (n : ℕ) (results : ℕ → Option JobResult) (ended : ℕ → Bool) (ts : List Turn)
    → ((i : ℕ) → ended i ≡ true → (job : JobResult) × (results i ≡ some job))
    → All (IsPossible n results) (possible ended ts)
unfolding possible
possible-IsPossible n results ended [] has = tt
possible-IsPossible n results ended (cancel i ∷ ts) has =
    (tt, possible-IsPossible n results ended ts has)
possible-IsPossible n results ended (proceed i how sys ∷ ts) has =
    let rest = possible-IsPossible n results ended ts has in
    elim (Bool-cases (ended i)) [
      | inl now ↦
          let e : possible ended (proceed i how sys ∷ ts) ≡ proceed i how sys ∷ possible ended ts =
            ground (arith, now) in
          subst (All (IsPossible n results)) (sym e) ((λ _. has i now), rest)
      | inr still ↦
          let e : possible ended (proceed i how sys ∷ ts) ≡ possible ended ts =
            ground (arith, still) in
          subst (All (IsPossible n results)) (sym e) rest
    ]

pub has_ended-result_at :
    (job_pending : Dict BuildId Ref) (jobs : List Job) (s : Scheduler) (i : ℕ)
    → Answered s
    → has_ended job_pending jobs s i ≡ true
    → (job : JobResult) × (result_at job_pending jobs s i ≡ some job)
unfolding has_ended result_at is_finished pending_at pending_of result_of Answered
has_ended-result_at job_pending jobs s i answered h = elim (Option-cases (get_elem? jobs i)) [
  | inl none_there ↦ absurd (ground arith)
  | inr (job, at) ↦ elim (Option-cases (lookup id_discrete job_pending job.id)) [
    | inl unlinked ↦ absurd (ground arith)
    | inr (ref, linked) ↦ elim (Option-cases (get_elem? s.pending ref)) [
      | inl gone ↦ absurd (ground arith)
      | inr (p, there) ↦
          let done : p.finished ≡ true = ground arith in
          let (res, has) = answered ref p there done in (res, ground arith)
    ]
  ]
]
