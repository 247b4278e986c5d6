-- ===== src/Scheduler/Runs.antt =====
-- What every history of calls keeps.
use mathlib.Core.List.{append-nil, append_assoc}
use distbuild.Common.{
  ◌≡◌, refl, sym, subst, ◌∙◌, inl, inr, false, Option, none, some, List, [], ◌∷◌, ◌++◌, length,
  get_elem?, get_elem?-snoc_last, lookup, Outcome-cases, Outcome, ap, returns, panics, blocks,
  ◌andthen◌, arith,
}
use distbuild.Build.{BuildId, id_discrete}
use distbuild.Api.{JobResult, JobSpec}
use distbuild.Scheduler.{
  PendingJob, Ref, Scheduler, Call, bare_spec, new_pending, allocate, finish, add_worker, step, run,
}
use distbuild.Scheduler.Invariant.{Inv, allocate-Inv, set-Inv, add_worker-Inv, queue-Inv}
use distbuild.Scheduler.Moves.{
  Move, add, enqueue, enqueued, hand, idle, known, settle, settle_unknown, step-Moves,
}

enqueued-Inv :
    (spec : JobSpec) (s : Scheduler)
    → lookup id_discrete s.jobs spec.id ≡ none
    → Inv s
    → Inv (enqueued spec s)
enqueued-Inv spec s free inv =
    allocate-Inv (new_pending spec none) (record s { queue = s.queue ++ length s.pending ∷ [] })
      free refl (queue-Inv s (s.queue ++ length s.pending ∷ []) inv)

-- A finished job still agrees with its flag.
finish-agrees :
    (res : Option JobResult) (p p' : PendingJob)
    → p.finished ≡ p.is_close_finished
    → finish res p ≡ returns p'
    → (p'.job ≡ p.job) × (p'.finished ≡ p'.is_close_finished)
unfolding finish
finish-agrees res p p' same e = ground arith

known_at :
    (id : BuildId) (res : Option JobResult) (s : Scheduler)
    → get_elem? (known id res s).pending (length s.pending) ≡ some (new_pending (bare_spec id) res)
unfolding allocate
known_at id res s = get_elem?-snoc_last s.pending (new_pending (bare_spec id) res)

-- Every move keeps the invariant.
pub Move-Inv : {s t : Scheduler} {given : List Ref} → Move s given t → Inv s → Inv t
Move-Inv (idle _ e) inv = subst Inv (sym e) inv
Move-Inv {s} (enqueue spec free _ _ e) inv = subst Inv (sym e) (enqueued-Inv spec s free inv)
Move-Inv {s} (hand ref rest _ _ e) inv = subst Inv (sym e) (queue-Inv s rest inv)
Move-Inv {s} (settle id res ref p p' found at done _ e) inv =
    let (job, agrees) = finish-agrees res p p' (inv.closed ref p at) done in
    subst Inv (sym e) (set-Inv ref p p' s at job agrees inv)
Move-Inv {s} (add w id _ e) inv = subst Inv (sym e) (add_worker-Inv w id s inv)
Move-Inv {s} (settle_unknown id res p' free done _ e) inv =
    let (job, agrees) = finish-agrees res (new_pending (bare_spec id) res) p' refl done in
    let inv' = allocate-Inv (new_pending (bare_spec id) res) s free refl inv in
    subst Inv (sym e) (
      set-Inv (length s.pending) (new_pending (bare_spec id) res) p' (known id res s)
        (known_at id res s) job agrees inv')

pub Move-running : {s t : Scheduler} {given : List Ref} → Move s given t → s.is_stop ≡ t.is_stop
unfolding allocate add_worker
Move-running (idle _ e) = ground arith
Move-running (enqueue spec free _ _ e) = ground arith
Move-running (hand ref rest _ _ e) = ground arith
Move-running (add w id _ e) = ground arith
Move-running (settle id res ref p p' found at done _ e) = ground arith
Move-running (settle_unknown id res p' free done _ e) = ground arith

-- A call or a history: it does not panic, and afterwards the invariant holds and no one has stopped
-- the scheduler.
abbrev pub Safe : Outcome (List Ref × Scheduler) → Type 0
Safe panics = ⊥
Safe blocks = Unit {0}
Safe (returns (given, s)) = Inv s × (s.is_stop ≡ false)

first_waits :
    (c : Call) (cs : List Call) (s : Scheduler) → step c s ≡ blocks → run (c ∷ cs) s ≡ blocks
unfolding run
first_waits c cs s waits = ground arith

first_blocks :
    (c : Call) (cs : List Call) (s : Scheduler) {given : List Ref} {t : Scheduler}
    → step c s ≡ blocks
    → run (c ∷ cs) s ≡ returns (given, t)
    → ⊥
first_blocks c cs s waits e = cc (first_waits c cs s waits)

-- A history that returns begins with a call that does.
pub first_of_run :
    (c : Call) (cs : List Call) (s : Scheduler) {given : List Ref} {t : Scheduler}
    → run (c ∷ cs) s ≡ returns (given, t)
    → (given' : List Ref) × (u : Scheduler) × (step c s ≡ returns (given', u))
unfolding run
first_of_run c cs s e = elim (Outcome-cases (step c s)) [
  | inl p ↦ absurd (ground arith)
  | inr (inl p) ↦ absurd (ground arith)
  | inr (inr ((given', u), p)) ↦ (given', u, p)
]

pub rest_of_run :
    (c : Call) (cs : List Call) (s : Scheduler) (given' : List Ref) (s' : Scheduler)
    {given : List Ref} {t : Scheduler}
    → step c s ≡ returns (given', s')
    → run (c ∷ cs) s ≡ returns (given, t)
    → (given'' : List Ref) × (run cs s' ≡ returns (given'', t)) × (given' ++ given'' ≡ given)
unfolding run
rest_of_run c cs s given' s' e' e = elim (Outcome-cases (run cs s')) [
  | inl p ↦ absurd (ground arith)
  | inr (inl p) ↦ absurd (ground arith)
  | inr (inr ((more, u), p)) ↦ (more, ground arith, ground arith)
]

-- A property of states that every move keeps, with what has been handed out so far, holds after each
-- history that returns.
pub run_rule {ℓ} :
    (P : List Ref → Scheduler → Type ℓ)
    → ((s t : Scheduler) (before given : List Ref)
        → Inv s
        → Move s given t
        → P before s
        → P (before ++ given) t)
    → (cs : List Call) (s : Scheduler) (before : List Ref) (t : Scheduler) (given : List Ref)
    → s.is_stop ≡ false
    → Inv s
    → P before s
    → run cs s ≡ returns (given, t)
    → P (before ++ given) t
unfolding run
run_rule P keep [] s before t given running inv h e =
    let none_given : [] ≡ given = cc in
    let same : s ≡ t = cc in
    subst (P (before ++ given)) same
      (subst (λ g. P (before ++ g) s) none_given (subst (λ g. P g s) (sym (append-nil before)) h))
run_rule P keep (c ∷ cs) s before t given running inv h e = elim (step-Moves s running c inv) [
  | inl waits ↦ absurd (first_blocks c cs s waits e)
  | inr (given', s', e', mv) ↦
      let (given'', e'', split) = rest_of_run c cs s given' s' e' e in
      let done =
        run_rule P keep cs s' (before ++ given') t given'' (sym (Move-running mv) ∙ running)
          (Move-Inv mv inv) (keep s s' before given' inv mv h) e'' in
      subst (λ g. P g t) (append_assoc before given' given'' ∙ ap (◌++◌ before) split) done
]

pub step-Safe :
    (c : Call) (s t : Scheduler) {given : List Ref}
    → s.is_stop ≡ false
    → Inv s
    → step c s ≡ returns (given, t)
    → Inv t × (t.is_stop ≡ false)
step-Safe c s t running inv e = elim (step-Moves s running c inv) [
  | inl waits ↦ absurd (cc)
  | inr (given', u, e', mv) ↦
      let same : u ≡ t = cc in
      subst (λ t. Inv t × (t.is_stop ≡ false)) same
        (Move-Inv mv inv, sym (Move-running mv) ∙ running)
]

Safe-andthen :
    (given : List Ref) (r : Outcome (List Ref × Scheduler))
    → Safe r
    → Safe (r andthen λ (more, s). returns (given ++ more, s))
Safe-andthen given panics h = h
Safe-andthen given blocks h = h
Safe-andthen given (returns (more, s)) h = h

-- No history of calls on a running scheduler whose invariant holds panics, and one that returns ends
-- with the invariant and the scheduler running.
pub run-Safe : (cs : List Call) (s : Scheduler) → s.is_stop ≡ false → Inv s → Safe (run cs s)
unfolding run
run-Safe [] s running inv = (inv, running)
run-Safe (c ∷ cs) s running inv = elim (step-Moves s running c inv) [
  | inl waits ↦ subst Safe (sym (first_waits c cs s waits)) tt
  | inr (given, t, e, mv) ↦
      subst
        (λ r.
          Safe (
            r andthen λ (given, s'). run cs s' andthen λ (more, s''). returns (given ++ more, s'')))
        (sym e)
        (Safe-andthen given (run cs t)
          (run-Safe cs t (sym (Move-running mv) ∙ running) (Move-Inv mv inv)))
]
