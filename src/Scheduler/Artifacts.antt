-- ===== src/Scheduler/Artifacts.antt =====
-- Where the scheduler says that an artifact lies: with one of the last four workers that reported it.
use mathlib.Core.List.{append-nil, append_assoc}
use distbuild.Common.{
  ℕ, ◌%◌, ◌≤◌, ◌≡◌, refl, sym, ap, subst, ◌∙◌, inl, inr, ◌⊎◌, false, Option, none, some, List, [],
  ◌∷◌, ◌++◌, Memᴰ, length, length-append, get_elem?_lt, lookup, insert, lookup-insert, Bool-cases,
  Dict, Outcome-cases, returns, if◌then◌else◌, leb, ite, List-cases, mem_of_get_elem?, arith,
}
use distbuild.Build.{BuildId, id_discrete}
use distbuild.Api.{WorkerId, JobResult}
use distbuild.Scheduler.Runs.{rest_of_run}
use distbuild.Scheduler.{
  Ref, Scheduler, Call, complete, report, schedule, pick, try_pick, new_scheduler, allocate, finish,
  finish_at, find_or_allocate, add_worker, remember, drop_oldest, workers_of, or_nil, choose,
  locate_artifact, complete_job, schedule_job, pick_job, try_pick_job, select_ready, from_queue,
  from_context, pop_or, from_done, check_is_stop, step, run,
}

-- The workers that reported the job in a history, the oldest first.
abbrev pub reported : BuildId → List Call → List WorkerId
reported id [] = []
reported id (report w id' ∷ cs) = ite (id_discrete id' id) (w ∷ reported id cs) (reported id cs)
reported id (c ∷ cs) = reported id cs

abbrev pub last_four : List WorkerId → List WorkerId
last_four [] = []
last_four (w ∷ ws) = if leb (length ws) 3 then w ∷ ws else last_four ws

last_four-short : (ws : List WorkerId) → length ws ≤ 4 → last_four ws ≡ ws
last_four-short [] h = refl
last_four-short (w ∷ ws) h = ground arith

-- The slice that the code keeps is the last four.
remember-last_four :
    (w : WorkerId) (ws : List WorkerId) → remember w (last_four ws) ≡ last_four (ws ++ w ∷ [])
unfolding remember drop_oldest
remember-last_four w [] = ground arith
remember-last_four w (x ∷ ws) = elim (Bool-cases (leb (length ws) 3)) [
  | inl short ↦ ground (arith, length-append ws (w ∷ []), last_four-short (ws ++ w ∷ []))
  | inr long ↦ ground (arith, length-append ws (w ∷ []), remember-last_four w ws)
]

-- What one call does to the workers of an artifact.
abbrev pub effect : BuildId → Call → List WorkerId → List WorkerId
effect id (report w id') ws = ite (id_discrete id' id) (remember w ws) ws
effect id c ws = ws

abbrev Artifacts : Type 0
Artifacts = Dict BuildId (List WorkerId)

abbrev artifacts_after : Call → Scheduler → Artifacts
artifacts_after (report w id) s = insert id_discrete s.artifacts id (remember w (workers_of s id))
artifacts_after c s = s.artifacts

finish_at-artifacts :
    (ref : Ref) (res : Option JobResult) (s t : Scheduler)
    → finish_at ref res s ≡ returns t
    → t.artifacts ≡ s.artifacts
unfolding finish_at finish
finish_at-artifacts ref res s t e = ground arith

find_or_allocate-artifacts :
    (id : BuildId) (res : Option JobResult) (s : Scheduler)
    → (find_or_allocate id res s).1.artifacts ≡ s.artifacts
unfolding find_or_allocate allocate
find_or_allocate-artifacts id res s = ground arith

complete-artifacts :
    (id : BuildId) (res : Option JobResult) (s t : Scheduler) {given : List Ref}
    → step (complete id res) s ≡ returns (given, t)
    → t.artifacts ≡ s.artifacts
unfolding step complete_job
complete-artifacts id res s t e = elim (Outcome-cases (finish_at ref res s')) [
  | inl p ↦ absurd (ground arith)
  | inr (inl p) ↦ absurd (ground arith)
  | inr (inr (u, p)) ↦
      let after : u ≡ t = ground arith in
      ap (λ (t : Scheduler). t.artifacts) (sym after)
      ∙ finish_at-artifacts ref res s' u p
      ∙ find_or_allocate-artifacts id res s
]
  where
    ref : Ref
    ref = (find_or_allocate id res s).0

    s' : Scheduler
    s' = (find_or_allocate id res s).1

step-artifacts :
    (c : Call) (s t : Scheduler) {given : List Ref}
    → step c s ≡ returns (given, t)
    → t.artifacts ≡ artifacts_after c s
unfolding step add_worker schedule_job pick_job try_pick_job select_ready pop_or from_done allocate
step-artifacts (complete id res) s t e = complete-artifacts id res s t e
step-artifacts (report w id) s t e = ground arith
step-artifacts (schedule spec) s t e = ground arith
step-artifacts (pick done from_queue) s t e = ground arith
step-artifacts (pick done from_context) s t e = ground arith
step-artifacts (try_pick done from_queue) s t e = ground arith
step-artifacts (try_pick done from_context) s t e = ground arith

workers-insert :
    (id id' : BuildId) (w : WorkerId) (s : Scheduler)
    → or_nil
        (lookup id_discrete (insert id_discrete s.artifacts id' (remember w (workers_of s id'))) id)
      ≡ effect id (report w id') (workers_of s id)
unfolding workers_of or_nil
workers-insert id id' w s =
    ground (arith, lookup-insert id_discrete s.artifacts id' id (remember w (workers_of s id')))

-- One call adds at most the worker that it names to the workers of an artifact.
pub step-workers :
    (id : BuildId) (c : Call) (s t : Scheduler) {given : List Ref}
    → step c s ≡ returns (given, t)
    → workers_of t id ≡ effect id c (workers_of s id)
unfolding workers_of
step-workers id (complete id' res) s t e =
    ap (λ a. or_nil (lookup id_discrete a id)) (step-artifacts (complete id' res) s t e)
step-workers id (report w id') s t e =
    ap (λ a. or_nil (lookup id_discrete a id)) (step-artifacts (report w id') s t e)
    ∙ workers-insert id id' w s
step-workers id (schedule spec) s t e =
    ap (λ a. or_nil (lookup id_discrete a id)) (step-artifacts (schedule spec) s t e)
step-workers id (pick done sel) s t e =
    ap (λ a. or_nil (lookup id_discrete a id)) (step-artifacts (pick done sel) s t e)
step-workers id (try_pick done sel) s t e =
    ap (λ a. or_nil (lookup id_discrete a id)) (step-artifacts (try_pick done sel) s t e)

-- The worker that a call names for the artifact.
abbrev named : BuildId → Call → List WorkerId
named id (report w id') = ite (id_discrete id' id) (w ∷ []) []
named id c = []

reported-cons :
    (id : BuildId) (c : Call) (cs : List Call) → reported id (c ∷ cs) ≡ named id c ++ reported id cs
reported-cons id (report w id') cs = ground arith
reported-cons id (complete id' res) cs = refl
reported-cons id (schedule spec) cs = refl
reported-cons id (pick done sel) cs = refl
reported-cons id (try_pick done sel) cs = refl

effect-last_four :
    (id : BuildId) (c : Call) (ws : List WorkerId)
    → effect id c (last_four ws) ≡ last_four (ws ++ named id c)
effect-last_four id (complete id' res) ws = rw (append-nil ws)
effect-last_four id (report w id') ws = ground (arith, remember-last_four w ws, append-nil ws)
effect-last_four id (schedule spec) ws = rw (append-nil ws)
effect-last_four id (pick done sel) ws = rw (append-nil ws)
effect-last_four id (try_pick done sel) ws = rw (append-nil ws)

run-workers :
    (id : BuildId) (cs : List Call) (s t : Scheduler) (before : List WorkerId) {given : List Ref}
    → workers_of s id ≡ last_four before
    → run cs s ≡ returns (given, t)
    → workers_of t id ≡ last_four (before ++ reported id cs)
unfolding run
run-workers id [] s t before h e =
    let same : s ≡ t = cc in
    subst (λ t. workers_of t id ≡ last_four (before ++ [])) same (rw (append-nil before) h)
run-workers id (c ∷ cs) s t before h e = elim (Outcome-cases (step c s)) [
  | inl p ↦ absurd (ground arith)
  | inr (inl p) ↦ absurd (ground arith)
  | inr (inr ((given, u), p)) ↦
      let (_, rest, _) = rest_of_run c cs s given u p e in
      let now : workers_of u id ≡ last_four (before ++ named id c) =
        step-workers id c s u p ∙ ap (effect id c) h ∙ effect-last_four id c before in
      run-workers id cs u t (before ++ named id c) now rest
      ∙ ap last_four (
          append_assoc before (named id c) (reported id cs)
          ∙ ap (◌++◌ before) (sym (reported-cons id c cs)))
]

-- From a new scheduler, `artifacts` holds for each identifier the last four workers that reported it.
pub workers_of-reported :
    (id : BuildId) (cs : List Call) (t : Scheduler) (given : List Ref)
    → run cs new_scheduler ≡ returns (given, t)
    → workers_of t id ≡ last_four (reported id cs)
unfolding new_scheduler workers_of or_nil lookup
workers_of-reported id cs t given e = run-workers id cs new_scheduler t [] refl e

choose-Memᴰ :
    (random : ℕ) (ws : List WorkerId) (w : WorkerId) → choose random ws ≡ some w → Memᴰ w ws
unfolding choose
choose-Memᴰ random [] w e = absurd (cc)
choose-Memᴰ random (x ∷ ws) w e = mem_of_get_elem? (x ∷ ws) (random % length (x ∷ ws)) e

pub choose-total :
    (random : ℕ) (w : WorkerId) (ws : List WorkerId)
    → (x : WorkerId) × (choose random (w ∷ ws) ≡ some x)
unfolding choose
choose-total random w ws = get_elem?_lt (w ∷ ws) (random % length (w ∷ ws)) (ground arith)

last_four-nil : (ws : List WorkerId) → last_four ws ≡ [] → ws ≡ []
last_four-nil [] h = refl
last_four-nil (w ∷ ws) h = elim (Bool-cases (leb (length ws) 3)) [
  | inl short ↦ absurd (ground arith)
  | inr long ↦
      let none_left : ws ≡ [] = last_four-nil ws (ground arith) in
      absurd (ground (arith, ap length none_left))
]

-- After a history from a new scheduler that no one has stopped, an artifact is located exactly when
-- some worker reported it, and then, whatever the random number, at one of the last four that did.
pub locate_artifact-reported :
    (random : ℕ) (id : BuildId) (cs : List Call) (t : Scheduler) (given : List Ref)
    → run cs new_scheduler ≡ returns (given, t)
    → t.is_stop ≡ false
    → ((reported id cs ≡ []) × (locate_artifact random id t ≡ returns none))
      ⊎ ((w : WorkerId) × (locate_artifact random id t ≡ returns (some w))
          × Memᴰ w (last_four (reported id cs)))
unfolding locate_artifact check_is_stop choose
locate_artifact-reported random id cs t given e running = elim (List-cases (workers_of t id)) [
  | inl empty ↦ inl (last_four-nil (reported id cs) (sym kept ∙ empty), ground (arith, empty))
  | inr (w, ws, some_of) ↦
      let (x, e') = choose-total random w ws in
      let found = subst (λ l. choose random l ≡ some x) (sym some_of) e' in
      inr (
        x,
        ground (arith, found),
        subst (Memᴰ x) kept (choose-Memᴰ random (workers_of t id) x found),
      )
]
  where
    kept : workers_of t id ≡ last_four (reported id cs)
    kept = workers_of-reported id cs t given e
