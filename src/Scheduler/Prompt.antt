-- ===== src/Scheduler/Prompt.antt =====
-- When every completion of a job is followed by the report of its worker, a finished job is located.
use mathlib.Core.List.{append-nil}
use distbuild.Common.{
  ℕ, ◌≡◌, ◌≢◌, refl, sym, ap, subst, ◌∙◌, true, false, some, List, [], ◌∷◌, ◌++◌, get_elem?,
  returns, Outcome-cases, List-cases, inl, inr, ◌⊎◌, length-append, arith,
}
use distbuild.Build.{BuildId, id_discrete}
use distbuild.Api.{WorkerId}
use distbuild.Scheduler.{
  new_scheduler, PendingJob, Ref, Scheduler, Call, complete, report, schedule, pick, try_pick,
  remember, drop_oldest, workers_of, check_is_stop, locate_artifact, choose, step, run,
}
use distbuild.Scheduler.Invariant.{Inv}
use distbuild.Scheduler.Runs.{rest_of_run, step-Safe}
use distbuild.Scheduler.Artifacts.{reported, effect, step-workers, choose-total}
use distbuild.Scheduler.Pending.{
  complete-pending, pick-pending, report-pending, schedule-pending, try_pick-pending,
}

-- The two parts of `OnJobComplete` do not come apart at the end of the calls.
abbrev pub Whole : List Call → Type 0
Whole [] = Unit {0}
Whole (complete id res ∷ cs) = (reported id cs ≢ []) × Whole cs
Whole (c ∷ cs) = Whole cs

-- Every finished job is located, or will be by the calls to come.
pub PromptBut : List Call → Scheduler → Type 0
PromptBut cs s =
    (ref : Ref) (p : PendingJob)
    → get_elem? s.pending ref ≡ some p
    → p.finished ≡ true
    → (workers_of s p.job.id ≢ []) ⊎ (reported p.job.id cs ≢ [])

pub Prompt : Scheduler → Type 0
Prompt s =
    (ref : Ref) (p : PendingJob)
    → get_elem? s.pending ref ≡ some p
    → p.finished ≡ true
    → workers_of s p.job.id ≢ []

remember-filled : (w : WorkerId) (ws : List WorkerId) → remember w ws ≢ []
unfolding remember drop_oldest
remember-filled w [] e = absurd (ground arith)
remember-filled w (x ∷ []) e = absurd (ground arith)
remember-filled w (x ∷ y ∷ ws) e = absurd (ground (arith, length-append ws (w ∷ [])))

effect-filled : (id : BuildId) (c : Call) (ws : List WorkerId) → ws ≢ [] → effect id c ws ≢ []
effect-filled id (report w id') ws h e = elim (id_discrete id' id) [
  | yes same ↦ remember-filled w ws (ground arith)
  | no other ↦ h (ground arith)
]
effect-filled id (complete id' res) ws h e = h e
effect-filled id (schedule spec) ws h e = h e
effect-filled id (pick done sel) ws h e = h e
effect-filled id (try_pick done sel) ws h e = h e

moved_filled :
    (id : BuildId) (c : Call) (s t : Scheduler) {given : List Ref}
    → step c s ≡ returns (given, t)
    → workers_of s id ≢ []
    → workers_of t id ≢ []
moved_filled id c s t e h empty =
    effect-filled id c (workers_of s id) h (sym (step-workers id c s t e) ∙ empty)

-- A call that reports nothing, and leaves a finished job only where there was one.
quiet-PromptBut :
    (c : Call) (cs : List Call) (s t : Scheduler) {given : List Ref}
    → step c s ≡ returns (given, t)
    → ((id : BuildId) → reported id (c ∷ cs) ≡ reported id cs)
    → ((r : Ref) (q : PendingJob)
        → get_elem? t.pending r ≡ some q
        → q.finished ≡ true
        → (reported q.job.id cs ≢ []) ⊎ (get_elem? s.pending r ≡ some q))
    → PromptBut (c ∷ cs) s
    → PromptBut cs t
unfolding PromptBut
quiet-PromptBut c cs s t e quiet back prompt r q at done = elim (back r q at done) [
  | inl soon ↦ inr soon
  | inr old ↦ elim (prompt r q old done) [
    | inl now ↦ inl (moved_filled q.job.id c s t e now)
    | inr soon ↦ inr (λ h. soon (quiet q.job.id ∙ h))
  ]
]

report-PromptBut :
    (w : WorkerId) (id : BuildId) (cs : List Call) (s t : Scheduler) {given : List Ref}
    → step (report w id) s ≡ returns (given, t)
    → PromptBut (report w id ∷ cs) s
    → PromptBut cs t
unfolding PromptBut
report-PromptBut w id cs s t e prompt r q at done =
    elim (prompt r q (ap (λ l. get_elem? l r) (sym (report-pending w id s t e)) ∙ at) done) [
      | inl now ↦ inl (moved_filled q.job.id (report w id) s t e now)
      | inr soon ↦ elim (id_discrete id q.job.id) [
        | yes same ↦ inl (λ empty.
            remember-filled w (workers_of s q.job.id)
              (ground (arith, sym (step-workers q.job.id (report w id) s t e) ∙ empty)))
        | no other ↦ inr (λ h. soon (ground (arith, h)))
      ]
    ]

step-PromptBut :
    (c : Call) (cs : List Call) (s t : Scheduler) {given : List Ref}
    → Inv s
    → step c s ≡ returns (given, t)
    → Whole (c ∷ cs)
    → PromptBut (c ∷ cs) s
    → PromptBut cs t
step-PromptBut (report w id) cs s t inv e whole prompt = report-PromptBut w id cs s t e prompt
step-PromptBut (complete id res) cs s t inv e whole prompt =
    quiet-PromptBut (complete id res) cs s t e (λ _. refl)
      (λ r q at done. elim (complete-pending id res s t inv e r q at) [
        | inl own ↦ inl (λ h. whole.0 (ap (λ i. reported i cs) (sym own) ∙ h))
        | inr old ↦ inr old
      ])
      prompt
step-PromptBut (schedule spec) cs s t inv e whole prompt =
    quiet-PromptBut (schedule spec) cs s t e (λ _. refl)
      (λ r q at done. inr (schedule-pending spec s t e r q at done)) prompt
step-PromptBut (pick done sel) cs s t inv e whole prompt =
    quiet-PromptBut (pick done sel) cs s t e (λ _. refl)
      (λ r q at h. inr (ap (λ l. get_elem? l r) (sym (pick-pending done sel s t e)) ∙ at)) prompt
step-PromptBut (try_pick done sel) cs s t inv e whole prompt =
    quiet-PromptBut (try_pick done sel) cs s t e (λ _. refl)
      (λ r q at h. inr (ap (λ l. get_elem? l r) (sym (try_pick-pending done sel s t e)) ∙ at))
      prompt

tail-Whole : (c : Call) (cs : List Call) → Whole (c ∷ cs) → Whole cs
tail-Whole (complete id res) cs h = h.1
tail-Whole (report w id) cs h = h
tail-Whole (schedule spec) cs h = h
tail-Whole (pick done sel) cs h = h
tail-Whole (try_pick done sel) cs h = h

pub Whole-suffix : (cs later : List Call) → Whole (cs ++ later) → Whole later
Whole-suffix [] later h = h
Whole-suffix (c ∷ cs) later h = Whole-suffix cs later (tail-Whole c (cs ++ later) h)

pub run-PromptBut :
    (cs later : List Call) (s t : Scheduler) {given : List Ref}
    → s.is_stop ≡ false
    → Inv s
    → run cs s ≡ returns (given, t)
    → Whole (cs ++ later)
    → PromptBut (cs ++ later) s
    → PromptBut later t
unfolding run
run-PromptBut [] later s t running inv e whole prompt =
    let same : s ≡ t = cc in subst (PromptBut later) same prompt
run-PromptBut (c ∷ cs) later s t running inv e whole prompt = elim (Outcome-cases (step c s)) [
  | inl p ↦ absurd (ground arith)
  | inr (inl p) ↦ absurd (ground arith)
  | inr (inr ((given, u), p)) ↦
      let (_, rest, _) = rest_of_run c cs s given u p e in
      let (inv', running') = step-Safe c s u running inv p in
      run-PromptBut cs later u t running' inv' rest (tail-Whole c (cs ++ later) whole)
        (step-PromptBut c (cs ++ later) s u inv p whole prompt)
]

pub Prompt-PromptBut : (cs : List Call) (s : Scheduler) → Prompt s → PromptBut cs s
unfolding Prompt PromptBut
Prompt-PromptBut cs s prompt r q at done = inl (prompt r q at done)

pub PromptBut-Prompt : (s : Scheduler) → PromptBut [] s → Prompt s
unfolding Prompt PromptBut
PromptBut-Prompt s prompt r q at done = elim (prompt r q at done) [
  | inl now ↦ now
  | inr later ↦ absurd (later refl)
]

-- After a history of a running scheduler in which no completion stands without its report, every
-- finished job is located, when every job that had finished before it was.
pub run-Prompt :
    (cs : List Call) (s t : Scheduler) (given : List Ref)
    → s.is_stop ≡ false
    → Inv s
    → run cs s ≡ returns (given, t)
    → Whole cs
    → Prompt s
    → Prompt t
run-Prompt cs s t given running inv e whole prompt = PromptBut-Prompt t (
    run-PromptBut cs [] s t running inv e (subst Whole (sym (append-nil cs)) whole)
      (Prompt-PromptBut (cs ++ []) s prompt))

-- Then the artifact of a finished job is found, whatever the random number.
pub locate_artifact-Prompt :
    (random : ℕ) (s : Scheduler) (ref : Ref) (p : PendingJob)
    → s.is_stop ≡ false
    → Prompt s
    → get_elem? s.pending ref ≡ some p
    → p.finished ≡ true
    → (w : WorkerId) × (locate_artifact random p.job.id s ≡ returns (some w))
unfolding Prompt locate_artifact check_is_stop
locate_artifact-Prompt random s ref p running prompt at done =
    elim (List-cases (workers_of s p.job.id)) [
      | inl empty ↦ absurd (prompt ref p at done empty)
      | inr (w, ws, some_of) ↦
          let (x, e) = choose-total random w ws in
          let found = subst (λ l. choose random l ≡ some x) (sym some_of) e in
          (x, ground (arith, found))
    ]

pub new_scheduler-Prompt : (new_scheduler.is_stop ≡ false) × Prompt new_scheduler
unfolding new_scheduler Prompt
new_scheduler-Prompt = (refl, λ ref p at done. absurd (cc))
