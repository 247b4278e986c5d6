-- ===== src/Scheduler/Picks.antt =====
-- Which jobs the scheduler hands to workers, and in which order.
use mathlib.Core.List.{append-nil, append_assoc}
use distbuild.Common.{
  ℕ, zero, suc, ◌≤◌, ◌≡◌, refl, sym, ap, subst, none, some, List, [], ◌∷◌, ◌++◌, length,
  length-append, length-set, get_elem?, set, returns, arith,
}
use distbuild.Scheduler.{
  PendingJob, Ref, Scheduler, Call, new_scheduler, new_pending, bare_spec, allocate, add_worker,
  run,
}
use distbuild.Scheduler.Invariant.{Inv, Inv-new}
use distbuild.Scheduler.Moves.{Move, idle, enqueue, hand, settle, settle_unknown, add}
use distbuild.Scheduler.Runs.{run_rule, Safe, run-Safe}

-- Strictly rising from `lo` on, and below `hi`.
abbrev pub Rising : ℕ → List Ref → ℕ → Type 0
Rising lo [] hi = lo ≤ hi
Rising lo (r ∷ rs) hi = (lo ≤ r) × Rising (suc r) rs hi

Rising-snoc :
    (lo : ℕ) (rs : List Ref) (hi : ℕ) → Rising lo rs hi → Rising lo (rs ++ hi ∷ []) (suc hi)
Rising-snoc lo [] hi h = (h, omega arith)
Rising-snoc lo (r ∷ rs) hi (h, rest) = (h, Rising-snoc (suc r) rs hi rest)

Rising-mono : (lo : ℕ) (rs : List Ref) (hi hi' : ℕ) → hi ≤ hi' → Rising lo rs hi → Rising lo rs hi'
Rising-mono lo [] hi hi' le h = omega arith
Rising-mono lo (r ∷ rs) hi hi' le (h, rest) = (h, Rising-mono (suc r) rs hi hi' le rest)

Rising-le :
    (lo : ℕ) (rs : List Ref) (hi j r : ℕ) → Rising lo rs hi → get_elem? rs j ≡ some r → lo ≤ r
Rising-le lo [] hi j r h e = absurd (cc)
Rising-le lo (x ∷ rs) hi zero r (h, rest) e = let same : x ≡ r = cc in omega arith
Rising-le lo (x ∷ rs) hi (suc j) r (h, rest) e = omega (arith, Rising-le (suc x) rs hi j r rest e)

-- No value stands at two places of a rising list.
Rising-inj :
    (lo : ℕ) (rs : List Ref) (hi i j r : ℕ)
    → Rising lo rs hi
    → get_elem? rs i ≡ some r
    → get_elem? rs j ≡ some r
    → i ≡ j
Rising-inj lo [] hi i j r h ei ej = absurd (cc)
Rising-inj lo (x ∷ rs) hi zero zero r h ei ej = refl
Rising-inj lo (x ∷ rs) hi zero (suc j) r (h, rest) ei ej =
    let same : x ≡ r = cc in absurd (omega (arith, Rising-le (suc x) rs hi j r rest ej))
Rising-inj lo (x ∷ rs) hi (suc i) zero r (h, rest) ei ej =
    let same : x ≡ r = cc in absurd (omega (arith, Rising-le (suc x) rs hi i r rest ei))
Rising-inj lo (x ∷ rs) hi (suc i) (suc j) r (h, rest) ei ej =
    ap suc (Rising-inj (suc x) rs hi i j r rest ei ej)

-- What was handed out, followed by what waits in the queue.
abbrev InOrder : List Ref → Scheduler → Type 0
InOrder given s = Rising 0 (given ++ s.queue) (length s.pending)

Move-InOrder :
    {s t : Scheduler} {given : List Ref} (before : List Ref)
    → Move s given t
    → InOrder before s
    → InOrder (before ++ given) t
unfolding allocate add_worker
Move-InOrder {s} {t} {given} before (idle g e) h =
    subst (InOrder (before ++ given)) (sym e)
      (subst (λ g. InOrder (before ++ g) s) (sym g) (rw (append-nil before) h))
Move-InOrder {s} before (enqueue spec free _ g e) h =
    let room : suc (length s.pending) ≡ length (s.pending ++ new_pending spec none ∷ []) =
      omega (arith, length-append s.pending (new_pending spec none ∷ [])) in
    rw (e, g, append-nil before, ← append_assoc before s.queue (length s.pending ∷ []))
      (subst (Rising 0 ((before ++ s.queue) ++ length s.pending ∷ [])) room
        (Rising-snoc 0 (before ++ s.queue) (length s.pending) h))
Move-InOrder {s} before (hand ref rest q g e) h =
    rw (e, g, append_assoc before (ref ∷ []) rest)
      (subst (λ l. Rising 0 (before ++ l) (length s.pending)) q h)
Move-InOrder {s} before (settle id res ref p p' found at done g e) h =
    rw (e, g, append-nil before, length-set s.pending ref p') h
Move-InOrder {s} before (add w id g e) h = rw (e, g, append-nil before) h
Move-InOrder {s} before (settle_unknown id res p' free done g e) h =
    let job = new_pending (bare_spec id) res in
    let room : length s.pending ≤ length (set (s.pending ++ job ∷ []) (length s.pending) p') =
      omega (
        arith,
        length-set (s.pending ++ job ∷ []) (length s.pending) p',
        length-append s.pending (job ∷ []),
      ) in
    rw (e, g, append-nil before) (Rising-mono 0 (before ++ s.queue) _ _ room h)

Rising-prefix : (lo : ℕ) (xs ys : List Ref) (hi : ℕ) → Rising lo (xs ++ ys) hi → Rising lo xs hi
Rising-prefix lo [] [] hi h = h
Rising-prefix lo [] (y ∷ ys) hi (h, rest) = omega (arith, Rising-prefix (suc y) [] ys hi rest)
Rising-prefix lo (x ∷ xs) ys hi (h, rest) = (h, Rising-prefix (suc x) xs ys hi rest)

same_ref :
    (t : Scheduler) (ref ref' : Ref) (p q : PendingJob)
    → Inv t
    → get_elem? t.pending ref ≡ some p
    → get_elem? t.pending ref' ≡ some q
    → p.job.id ≡ q.job.id
    → ref ≡ ref'
same_ref t ref ref' p q inv ep eq same = cc (inv.owners ref p ep, inv.owners ref' q eq)

-- From a new scheduler, what has been handed to workers and then what waits in the queue are jobs in
-- the order of their allocation, none of them twice.
pub picks_in_order :
    (cs : List Call) (given : List Ref) (t : Scheduler)
    → run cs new_scheduler ≡ returns (given, t)
    → Rising 0 (given ++ t.queue) (length t.pending)
unfolding new_scheduler
picks_in_order cs given t e =
    run_rule InOrder (λ s t before given _ mv. Move-InOrder before mv) cs new_scheduler [] t given
      refl Inv-new (omega arith) e

-- From a new scheduler, no job identifier is handed to a worker twice.
pub picks_once :
    (cs : List Call) (given : List Ref) (t : Scheduler) (i j ref ref' : ℕ) (p q : PendingJob)
    → run cs new_scheduler ≡ returns (given, t)
    → get_elem? given i ≡ some ref
    → get_elem? t.pending ref ≡ some p
    → get_elem? given j ≡ some ref'
    → get_elem? t.pending ref' ≡ some q
    → p.job.id ≡ q.job.id
    → i ≡ j
unfolding new_scheduler
picks_once cs given t i j ref ref' p q e ei ep ej eq same =
    let (inv, _) = subst Safe e (run-Safe cs new_scheduler refl Inv-new) in
    let one : ref ≡ ref' = same_ref t ref ref' p q inv ep eq same in
    Rising-inj 0 given (length t.pending) i j ref
      (Rising-prefix 0 given t.queue (length t.pending) (picks_in_order cs given t e)) ei
      (subst (λ r. get_elem? given j ≡ some r) (sym one) ej)
