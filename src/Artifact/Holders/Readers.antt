-- ===== src/Artifact/Holders/Readers.antt =====
-- What readers see: an artifact that is held does not change, and what is committed is what was staged.
use distbuild.Common.{
  ◌<◌, ◌≡◌, ◌≢◌, ◌∙◌, refl, sym, ap, subst, inl, inr, true, false, Bool-cases, Option, none, some,
  List, [], ◌∷◌, All, lookup, insert, delete, Result, ok, err, arith,
}
use distbuild.Build.{BuildId, id_discrete}
use distbuild.Artifact.{
  OsError, Error, Cache, begin_remove, create, commit, get, read_lock, read_unlock, write_lock,
  write_unlock, make_staged, mkdir, rename, stat_committed, readers, is_positive,
}
use distbuild.Artifact.Outcomes.{
  get_outcome, write_lock_outcome, create_outcome, commit_outcome, abort_outcome,
  end_remove_outcome,
}
use distbuild.Artifact.Holders.{
  got, created, removing, System, Event, gets, unlocks, creates, writes, commits, aborts, removes,
  removal_ends, count, holds, count-drop_one, step, run,
}
use distbuild.Artifact.Holders.Exclusion.{step-Fits}
use distbuild.Artifact.Holders.Counted.{Fits}

module _ {Tree : Type 0} where
  abbrev at : System Tree → BuildId → Option Tree
  at s id = lookup id_discrete s.cache.committed id

  -- The event is not the release of a read lock on the artifact.
  abbrev pub Spares : BuildId → Event Tree → Type 0
  Spares id (unlocks id') = id' ≢ id
  Spares id e = Unit {0}

  no_writer :
      (s : System Tree) (id k : BuildId)
      → Fits s k
      → 0 < count k s.readers
      → holds id s.writers ≡ true
      → id ≢ k
  no_writer s id k f held w same =
      absurd (ground (arith, f.apart held, ap (λ (i : BuildId). count i s.writers) same))

  no_remover :
      (s : System Tree) (id k : BuildId)
      → Fits s k
      → 0 < count k s.readers
      → holds id s.removers ≡ true
      → id ≢ k
  no_remover s id k f held w same =
      absurd (ground (arith, f.apart held, ap (λ (i : BuildId). count i s.removers) same))

  commit-at_ne :
      (id k : BuildId) (fails : Option OsError) (c : Cache Tree)
      → id ≢ k
      → lookup id_discrete (commit id fails c).0.committed k ≡ lookup id_discrete c.committed k
  commit-at_ne id k fails c ne =
      let (c', w, ends) = commit_outcome id fails c in
      elim ends [
        | inl (tree, e, _, _, sets) ↦
            subst
              (λ (r : Cache Tree × Result Error (Unit {0})).
                lookup id_discrete r.0.committed k ≡ lookup id_discrete c.committed k)
              (sym e) (ground (arith, sets k))
        | inr (x, e, same) ↦
            subst
              (λ (r : Cache Tree × Result Error (Unit {0})).
                lookup id_discrete r.0.committed k ≡ lookup id_discrete c.committed k)
              (sym e) (ap (λ d. lookup id_discrete d k) same)
      ]

  -- A directory that a reader holds is neither removed nor replaced by any step.
  step-at :
      (e : Event Tree) (s : System Tree) (k : BuildId)
      → ((id : BuildId) → Fits s id)
      → 0 < count k s.readers
      → at (step e s) k ≡ at s k
  unfolding step begin_remove read_unlock
  step-at (gets id stat) s k f held =
      elim (get_outcome id stat s.cache (count id s.readers) (f id).reads) [
        | inl (tree, c, done, _, l) ↦
            subst (λ r. at (got id s r) k ≡ at s k) (sym done)
              (ap (λ d. lookup id_discrete d k) l.committed)
        | inr (e, c, done, u) ↦
            subst (λ r. at (got id s r) k ≡ at s k) (sym done)
              (ap (λ d. lookup id_discrete d k) u.committed)
      ]
  step-at (unlocks id) s k f held = ground arith
  step-at (creates id empty stat mkdir_fails) s k f held =
      elim (create_outcome id empty stat mkdir_fails s.cache) [
        | inl (e, c, done, u) ↦
            subst (λ r. at (created id s r) k ≡ at s k) (sym done)
              (ap (λ d. lookup id_discrete d k) u.committed)
        | inr (c, done, w, _) ↦
            subst (λ r. at (created id s r) k ≡ at s k) (sym done)
              (ap (λ d. lookup id_discrete d k) w.committed)
      ]
  step-at (writes id change) s k f held = ground arith
  step-at (commits id fails) s k f held = elim (Bool-cases (holds id s.writers)) [
    | inr free ↦ rw (free, step)
    | inl w ↦ rw (w, step) (commit-at_ne id k fails s.cache (no_writer s id k (f k) held w))
  ]
  step-at (aborts id how) s k f held = elim (Bool-cases (holds id s.writers)) [
    | inr free ↦ rw (free, step)
    | inl w ↦ rw (w, step) (ap (λ d. lookup id_discrete d k) (abort_outcome id how s.cache).1)
  ]
  step-at (removes id stat) s k f held = elim (write_lock_outcome id true stat s.cache) [
    | inl (e, fails) ↦ subst (λ r. at (removing id s r) k ≡ at s k) (sym fails) refl
    | inr (c, done, w, _, _) ↦
        subst (λ r. at (removing id s r) k ≡ at s k) (sym done)
          (ap (λ d. lookup id_discrete d k) w.committed)
  ]
  step-at (removal_ends id how) s k f held = elim (Bool-cases (holds id s.removers)) [
    | inr free ↦ rw (free, step)
    | inl w ↦
        rw (w, step) ((end_remove_outcome id how s.cache).1 k (no_remover s id k (f k) held w))
  ]

  got-held :
      (id : BuildId) (s : System Tree) (r : Cache Tree × Result Error Tree) (k : BuildId)
      → 0 < count k s.readers
      → 0 < count k (got id s r).readers
  got-held id s (c, ok tree) k held = ground arith
  got-held id s (c, err e) k held = held

  created-held :
      (id : BuildId) (s : System Tree) (r : Cache Tree × Result Error (Unit {0})) (k : BuildId)
      → 0 < count k s.readers
      → 0 < count k (created id s r).readers
  created-held id s (c, ok _) k held = held
  created-held id s (c, err e) k held = held

  removing-held :
      (id : BuildId) (s : System Tree) (r : Result Error (Cache Tree)) (k : BuildId)
      → 0 < count k s.readers
      → 0 < count k (removing id s r).readers
  removing-held id s (ok c) k held = held
  removing-held id s (err e) k held = held

  -- Only the release of its lock ends a read.
  step-held :
      (e : Event Tree) (s : System Tree) (k : BuildId)
      → Spares k e
      → 0 < count k s.readers
      → 0 < count k (step e s).readers
  unfolding step
  step-held (gets id stat) s k h held = got-held id s (get id stat s.cache) k held
  step-held (unlocks id) s k h held = ground (arith, count-drop_one id k s.readers)
  step-held (creates id empty stat mkdir_fails) s k h held =
      created-held id s (create id empty stat mkdir_fails s.cache) k held
  step-held (writes id change) s k h held = ground arith
  step-held (commits id fails) s k h held = ground arith
  step-held (aborts id how) s k h held = ground arith
  step-held (removes id stat) s k h held = removing-held id s (begin_remove id stat s.cache) k held
  step-held (removal_ends id how) s k h held = ground arith

  -- As long as a reader keeps its lock, the artifact that it reads stays as it is, whatever the other
  -- callers do and whichever of their calls fail.
  pub held_artifact_stays :
      (es : List (Event Tree)) (s : System Tree) (k : BuildId)
      → ((id : BuildId) → Fits s id)
      → 0 < count k s.readers
      → All (Spares k) es
      → lookup id_discrete (run es s).cache.committed k ≡ lookup id_discrete s.cache.committed k
  unfolding run
  held_artifact_stays [] s k f held h = refl
  held_artifact_stays (e ∷ es) s k f held (h, hs) =
      held_artifact_stays es (step e s) k (step-Fits e s f) (step-held e s k h held) hs
      ∙ step-at e s k f held

  pub create_ok :
      (id : BuildId) (empty : Tree) (c : Cache Tree)
      → lookup id_discrete c.committed id ≡ none
      → lookup id_discrete c.writing id ≡ none
      → is_positive (readers c id) ≡ false
      → create id empty none none c ≡ (
        record c { writing = insert id_discrete c.writing id tt; staged = mkdir id empty c.staged },
        ok tt,
      )
  unfolding create write_lock make_staged
  create_ok id empty c absent free unread = ground (arith, absent, free)

  pub commit_ok :
      (id : BuildId) (tree : Tree) (c : Cache Tree)
      → lookup id_discrete c.staged id ≡ some tree
      → lookup id_discrete c.committed id ≡ none
      → commit id none c ≡ (
        write_unlock id (record c {
          staged = delete id_discrete c.staged id;
          committed = insert id_discrete c.committed id tree;
        }),
        ok tt,
      )
  unfolding commit rename
  commit_ok id tree c staged absent = ground (arith, staged, absent)

  pub get_ok :
      (id : BuildId) (tree : Tree) (c : Cache Tree)
      → lookup id_discrete c.committed id ≡ some tree
      → lookup id_discrete c.writing id ≡ none
      → (get id none c).1 ≡ ok tree
  unfolding get read_lock stat_committed
  get_ok id tree c at free = ground (arith, at, free)

  abbrev pub publish : BuildId → Tree → (Tree → Tree) → List (Event Tree)
  publish id empty change = creates id empty none none ∷ writes id change ∷ commits id none ∷ []

  -- What lies in the staging directory that `Create` gives: what an abort could not remove stays there.
  abbrev pub left_or : Tree → Option Tree → Tree
  left_or empty none = empty
  left_or empty (some tree) = tree
