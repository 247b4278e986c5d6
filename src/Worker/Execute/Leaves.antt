-- ===== src/Worker/Execute/Leaves.antt =====
-- What `executeJob` leaves behind, on each of its ways out.
use distbuild.Common.{
  ℕ, ◌≡◌, refl, sym, ap, subst, ◌∙◌, Option, none, some, All, All-map, lookup, Result, ok, err,
  Outcome, returns, inl, inr, arith,
}
use distbuild.Build.{Text, Cmd, BuildId, id_discrete, Job}
use distbuild.Api.{JobResult}
use distbuild.Artifact.{Error, Cache, commit, abort}
use distbuild.Artifact.Locks.{Sets, Agrees, WriteLocked, WriteFreed}
use distbuild.Artifact.Outcomes.{create_outcome, commit_outcome, abort_outcome, freed_again}
use distbuild.Worker.Execute.{
  LinkError, Machine, Ends, Executed, link_failed, create_failed, abort_failed, commit_failed,
  job_failed, unlock_all, aborted, committed_job, settle_job, empty_result, job_context,
  run_created, execute_job,
}
use distbuild.Worker.Execute.Locks.{
  Reads, with_deps, Fetchable, get_deps-Reading, unlock_all-Reading, run_commands-Working,
}

module _ {Tree : Type 0} where
  -- The readers are `n`, and the same artifacts are being written.
  abbrev pub Locks : (BuildId → ℕ) → Cache Tree → Cache Tree → Type 0
  Locks n c c' = Reads n c' × Agrees c.writing c'.writing

  abbrev pub Leaves : (BuildId → ℕ) → Job → Cache Tree → Executed Tree → Type 0
  Leaves n job c ((res, none), c') =
      Locks n c c' × ((tree : Tree) × Sets job.id (some tree) c.committed c'.committed)
  Leaves n job c ((res, some (link_failed e)), c') = Locks n c c' × (c'.committed ≡ c.committed)
  Leaves n job c ((res, some (create_failed e)), c') = Locks n c c' × (c'.committed ≡ c.committed)
  Leaves n job c ((res, some (commit_failed e)), c') = Locks n c c' × (c'.committed ≡ c.committed)
  Leaves n job c ((res, some (abort_failed e)), c') =
      Locks (with_deps job.deps n) c c' × (c'.committed ≡ c.committed)
  Leaves n job c ((res, some (job_failed msg)), c') =
      Locks (with_deps job.deps n) c c' × (c'.committed ≡ c.committed)

  -- The state when the commands have ended.
  record Worked (n : BuildId → ℕ) (job : Job) (c a b : Cache Tree) : Type 0 where
    locked : WriteLocked job.id c a
    reads : Reads (with_deps job.deps n) b
    writing : Agrees a.writing b.writing
    committed : b.committed ≡ c.committed

  abort-Leaves :
      (ends : Ends Tree) (n : BuildId → ℕ) (job : Job) (c a b d : Cache Tree)
      → Worked n job c a b
      → d ≡ (abort job.id ends.removal b).0
      → Locks (with_deps job.deps n) c d × (d.committed ≡ c.committed)
  abort-Leaves ends n job c a b d w same =
      let (freed, dirs) =
        subst (λ d. WriteFreed job.id b d × (d.committed ≡ b.committed)) (sym same)
          (abort_outcome job.id ends.removal b) in
      (
        ((λ k. freed.reading k ∙ w.reads k), freed_again job.id c a b d w.locked w.writing freed),
        dirs ∙ w.committed,
      )

  aborted-Leaves :
      (ends : Ends Tree) (n : BuildId → ℕ) (job : Job) (c a b : Cache Tree) (res : JobResult)
      (msg : Text)
      → Worked n job c a b
      → (r : Cache Tree × Result Error (Unit {0})) → r.0 ≡ (abort job.id ends.removal b).0
      → Leaves n job c (aborted res msg r)
  unfolding aborted
  aborted-Leaves ends n job c a b res msg w (d, err e) same = abort-Leaves ends n job c a b d w same
  aborted-Leaves ends n job c a b res msg w (d, ok x) same = abort-Leaves ends n job c a b d w same

  unlocked_all-Worked :
      (n : BuildId → ℕ) (job : Job) (c a b : Cache Tree)
      → Worked n job c a b
      → Reads n (unlock_all job.deps b)
        × Agrees a.writing (unlock_all job.deps b).writing
        × ((unlock_all job.deps b).committed ≡ c.committed)
  unlocked_all-Worked n job c a b w =
      let r = unlock_all-Reading job.deps b n w.reads in
      (r.reads, (λ k. r.writing k ∙ w.writing k), r.committed ∙ w.committed)

  committed_job-Leaves :
      (ends : Ends Tree) (n : BuildId → ℕ) (job : Job) (c a b : Cache Tree) (res : JobResult)
      → Worked n job c a b
      → Leaves n job c (committed_job res (commit job.id ends.rename (unlock_all job.deps b)))
  unfolding committed_job
  committed_job-Leaves ends n job c a b res w =
      let (reads, writing, dirs) = unlocked_all-Worked n job c a b w in
      let u = unlock_all job.deps b in
      let (d, freed, how) = commit_outcome job.id ends.rename u in
      let locks : Locks n c d =
        (λ k. freed.reading k ∙ reads k, freed_again job.id c a u d w.locked writing freed) in
      elim how [
        | inl (tree, e, _, _, sets) ↦
            subst (λ r. Leaves n job c (committed_job res r)) (sym e)
              (locks, (tree, subst (λ m. Sets job.id (some tree) m d.committed) dirs sets))
        | inr (x, e, same) ↦
            subst (λ r. Leaves n job c (committed_job res r)) (sym e) (locks, same ∙ dirs)
      ]

  settle_job-Leaves :
      (ends : Ends Tree) (n : BuildId → ℕ) (job : Job) (c a b : Cache Tree)
      (r : JobResult × Option Text)
      → Worked n job c a b
      → Leaves n job c (settle_job ends job.id job.deps (r, b))
  unfolding settle_job
  settle_job-Leaves ends n job c a b (res, some msg) w =
      aborted-Leaves ends n job c a b res msg w (abort job.id ends.removal b) refl
  settle_job-Leaves ends n job c a b (res, none) w = committed_job-Leaves ends n job c a b res w

  -- A call that returns, and leaves things so.
  Ended : (BuildId → ℕ) → Job → Cache Tree → Outcome (Executed Tree) → Type 0
  Ended n job c out = (r : Executed Tree) × (out ≡ returns r) × Leaves n job c r

  created-Ended :
      (machine : Machine Tree) (ends : Ends Tree) (n : BuildId → ℕ) (job : Job) (c a : Cache Tree)
      → Reads n c
      → All (Fetchable c) job.deps
      → ((d : BuildId) → ends.dep_stat d ≡ none)
      → ((cmd : Cmd) → (cmd' : Cmd) × (machine.render cmd (job_context ends job.deps) ≡ some cmd'))
      → WriteLocked job.id c a
      → lookup id_discrete c.committed job.id ≡ none
      → Ended n job c (run_created machine ends job (a, ok tt))
  unfolding run_created Ended
  created-Ended machine ends n job c a reads deps stats renders locked absent =
      let (b, e, r) =
        get_deps-Reading ends.dep_stat job.deps a n (λ k. locked.reading k ∙ reads k)
          (All-map job.deps (λ d. still_fetchable d) deps) stats in
      let (out, b', e', w) =
        run_commands-Working machine (job_context ends job.deps) job.id job.cmds
          (empty_result job.id) b renders in
      (
        settle_job ends job.id job.deps (out, b'),
        ground (arith, e, e'),
        settle_job-Leaves ends n job c a b' out record {
          locked = locked;
          reads = λ k. ap (λ m. lookup id_discrete m k) w.reading ∙ r.reads k;
          writing = λ k. ap (λ m. lookup id_discrete m k) w.writing ∙ r.writing k;
          committed = w.committed ∙ r.committed ∙ locked.committed;
        },
      )
    where
      -- A committed dependency is not the new artifact.
      still_fetchable : (d : BuildId) → Fetchable c d → Fetchable a d
      still_fetchable d f = record {
        tree = f.tree;
        committed = ap (λ m. lookup id_discrete m d) locked.committed ∙ f.committed;
        unwritten = ground (arith, locked.writing d, f.unwritten, f.committed, absent);
      }

  -- When every dependency is committed and not being written, `os.Stat` of them succeeds and the
  -- commands can be rendered, `executeJob` returns. It always gives the write lock back. On success
  -- the artifact is committed and the readers are those of before; where linking, `Create` or `commit`
  -- fails the committed artifacts and the readers are those of before; where a command fails the
  -- committed artifacts are those of before, but the job stays a reader of every dependency.
  pub execute_job-Leaves :
      (machine : Machine Tree) (ends : Ends Tree) (linked : Result LinkError (Unit {0}))
      (n : BuildId → ℕ) (job : Job) (c : Cache Tree)
      → Reads n c
      → All (Fetchable c) job.deps
      → ((d : BuildId) → ends.dep_stat d ≡ none)
      → ((cmd : Cmd) → (cmd' : Cmd) × (machine.render cmd (job_context ends job.deps) ≡ some cmd'))
      → (r : Executed Tree) × (execute_job machine ends linked job c ≡ returns r) × Leaves n job c r
  unfolding execute_job run_created Ended
  execute_job-Leaves machine ends (err e) n job c reads deps stats renders =
      (((empty_result job.id, some (link_failed e)), c), refl, ((reads, λ k. refl), refl))
  execute_job-Leaves machine ends (ok x) n job c reads deps stats renders =
      elim (create_outcome job.id ends.empty ends.create_stat ends.mkdir c) [
        | inl (e, a, fails, u) ↦ (
          ((empty_result job.id, some (create_failed e)), a),
          ap (run_created machine ends job) fails,
          (((λ k. u.reading k ∙ reads k), u.writing), u.committed),
        )
        | inr (a, made, locked, absent) ↦
            subst (Ended n job c) (ap (run_created machine ends job) (sym made))
              (created-Ended machine ends n job c a reads deps stats renders locked absent)
      ]
