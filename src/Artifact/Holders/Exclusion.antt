-- ===== src/Artifact/Holders/Exclusion.antt =====
-- Readers and writers of one artifact exclude each other.
use distbuild.Common.{
  ℕ, zero, suc, ◌≡◌, ◌∙◌, refl, sym, ap, subst, inl, inr, true, Bool-cases, Option, List, [], ◌∷◌,
  ltb, arith,
}
use distbuild.Build.{BuildId}
use distbuild.Artifact.{OsError, Removal, begin_remove, end_remove, abort, commit, read_unlock}
use distbuild.Artifact.Locks.{tally, unlock_reading}
use distbuild.Artifact.Outcomes.{
  get_outcome, write_lock_outcome, create_outcome, commit-WriteFreed, abort_outcome,
  end_remove_outcome,
}
use distbuild.Artifact.Holders.{
  got, created, removing, System, Event, gets, unlocks, creates, writes, commits, aborts, removes,
  removal_ends, count, holds, step, run,
}
use distbuild.Artifact.Holders.Counted.{
  Fits, cleared-Fits, reader-Fits, remover-Fits, same-Fits, unlocked-Fits, writer-Fits,
  written-Fits,
}

module _ {Tree : Type 0} where
  creates-Fits :
      (id : BuildId) (empty : Tree) (stat mkdir_fails : Option OsError) (s : System Tree)
      (k : BuildId)
      → Fits s id
      → Fits s k
      → Fits (step (creates id empty stat mkdir_fails) s) k
  unfolding step
  creates-Fits id empty stat mkdir_fails s k f g =
      elim (create_outcome id empty stat mkdir_fails s.cache) [
        | inl (e, c, done, u) ↦
            subst (λ r. Fits (created id s r) k) (sym done) (same-Fits s c k u.reading u.writing g)
        | inr (c, done, w, _) ↦
            subst (λ r. Fits (created id s r) k) (sym done) (writer-Fits id s c k w f g)
      ]

  gets-Fits :
      (id : BuildId) (stat : Option OsError) (s : System Tree) (k : BuildId)
      → Fits s id
      → Fits s k
      → Fits (step (gets id stat) s) k
  unfolding step
  gets-Fits id stat s k f g = elim (get_outcome id stat s.cache (count id s.readers) f.reads) [
    | inl (tree, c, done, _, l) ↦
        subst (λ r. Fits (got id s r) k) (sym done) (reader-Fits id s c k l f g)
    | inr (e, c, done, u) ↦
        subst (λ r. Fits (got id s r) k) (sym done) (same-Fits s c k u.reading u.writing g)
  ]

  removes-Fits :
      (id : BuildId) (stat : Option OsError) (s : System Tree) (k : BuildId)
      → Fits s id
      → Fits s k
      → Fits (step (removes id stat) s) k
  unfolding step begin_remove
  removes-Fits id stat s k f g = elim (write_lock_outcome id true stat s.cache) [
    | inl (e, fails) ↦ subst (λ r. Fits (removing id s r) k) (sym fails) g
    | inr (c, done, w, _, _) ↦
        subst (λ r. Fits (removing id s r) k) (sym done) (remover-Fits id s c k w f g)
  ]

  unlocks-Fits :
      (id : BuildId) (s : System Tree) (k : BuildId)
      → Fits s id
      → Fits s k
      → Fits (step (unlocks id) s) k
  unfolding step read_unlock
  unlocks-Fits id s k f g = elim (Bool-cases (holds id s.readers)) [
    | inr free ↦ rw (free, step) g
    | inl held ↦
        let (m, n) = held-suc (count id s.readers) held in
        rw (held, step)
          (unlocked-Fits id s (read_unlock id s.cache) k m n
            (unlock_reading id s.cache m (f.reads ∙ ap tally n)) (λ j. refl) f g)
  ]
    where
      held-suc : (n : ℕ) → ltb 0 n ≡ true → (m : ℕ) × (n ≡ suc m)
      held-suc zero e = absurd (cc)
      held-suc (suc m) e = (m, refl)

  commits-Fits :
      (id : BuildId) (fails : Option OsError) (s : System Tree) (k : BuildId)
      → Fits s id
      → Fits s k
      → Fits (step (commits id fails) s) k
  unfolding step
  commits-Fits id fails s k f g = elim (Bool-cases (holds id s.writers)) [
    | inr free ↦ rw (free, step) g
    | inl held ↦
        rw (held, step)
          (written-Fits id s (commit id fails s.cache).0 k (commit-WriteFreed id fails s.cache) held
            f g)
  ]

  aborts-Fits :
      (id : BuildId) (how : Removal Tree) (s : System Tree) (k : BuildId)
      → Fits s id
      → Fits s k
      → Fits (step (aborts id how) s) k
  unfolding step
  aborts-Fits id how s k f g = elim (Bool-cases (holds id s.writers)) [
    | inr free ↦ rw (free, step) g
    | inl held ↦
        rw (held, step)
          (written-Fits id s (abort id how s.cache).0 k (abort_outcome id how s.cache).0 held f g)
  ]

  removal_ends-Fits :
      (id : BuildId) (how : Removal Tree) (s : System Tree) (k : BuildId)
      → Fits s id
      → Fits s k
      → Fits (step (removal_ends id how) s) k
  unfolding step
  removal_ends-Fits id how s k f g = elim (Bool-cases (holds id s.removers)) [
    | inr free ↦ rw (free, step) g
    | inl held ↦
        rw (held, step)
          (cleared-Fits id s (end_remove id how s.cache).0 k (end_remove_outcome id how s.cache).0
            held f g)
  ]

  writes-Fits :
      (id : BuildId) (change : Tree → Tree) (s : System Tree) (k : BuildId)
      → Fits s k
      → Fits (step (writes id change) s) k
  unfolding step
  writes-Fits id change s k g = ground arith

  pub step-Fits :
      (e : Event Tree) (s : System Tree)
      → ((k : BuildId) → Fits s k)
      → (k : BuildId) → Fits (step e s) k
  step-Fits (gets id stat) s f k = gets-Fits id stat s k (f id) (f k)
  step-Fits (unlocks id) s f k = unlocks-Fits id s k (f id) (f k)
  step-Fits (creates id empty stat mkdir_fails) s f k =
      creates-Fits id empty stat mkdir_fails s k (f id) (f k)
  step-Fits (writes id change) s f k = writes-Fits id change s k (f k)
  step-Fits (commits id fails) s f k = commits-Fits id fails s k (f id) (f k)
  step-Fits (aborts id how) s f k = aborts-Fits id how s k (f id) (f k)
  step-Fits (removes id stat) s f k = removes-Fits id stat s k (f id) (f k)
  step-Fits (removal_ends id how) s f k = removal_ends-Fits id how s k (f id) (f k)

  -- Through every history, whichever of its calls fail, the locks of every artifact say who holds them,
  -- readers and a writer or a removal never hold an artifact at once, and neither do two of the latter.
  pub run-Fits :
      (es : List (Event Tree)) (s : System Tree)
      → ((k : BuildId) → Fits s k)
      → (k : BuildId) → Fits (run es s) k
  unfolding run
  run-Fits [] s f = f
  run-Fits (e ∷ es) s f = run-Fits es (step e s) (step-Fits e s f)
