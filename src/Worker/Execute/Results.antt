-- ===== src/Worker/Execute/Results.antt =====
-- The result of a job carries its identifier, and no error when it succeeds.
use distbuild.Common.{
  ◌≡◌, refl, sym, subst, Option, none, some, Option-cases, List, [], ◌∷◌, Result, ok, err, Outcome,
  Outcome-cases, returns, panics, blocks, inl, inr, arith,
}
use distbuild.Build.{Text, Cmd, BuildId, Job, JobContext}
use distbuild.Api.{JobResult}
use distbuild.Artifact.{Error, Cache, create, commit, abort}
use distbuild.Worker.Execute.{
  LinkError, Machine, Ends, Executed, get_deps, unlock_all, ran, execute_command, work_on,
  run_commands, aborted, committed_job, settle_job, empty_result, job_context, run_created,
  execute_job,
}

-- A result for a job, with an error unless all went well.
abbrev pub Fine : {E : Type 0} → BuildId → JobResult → Option E → Type 0
Fine id res none = (res.id ≡ id) × (res.error ≡ none)
Fine id res (some e) = res.id ≡ id

module _ {Tree : Type 0} where
  run_commands-Fine :
      (machine : Machine Tree) (ctx : JobContext) (id : BuildId) (cmds : List Cmd)
      (res res' : JobResult) (msg : Option Text) (c c' : Cache Tree)
      → res.id ≡ id
      → res.error ≡ none
      → run_commands machine ctx id cmds res c ≡ returns ((res', msg), c')
      → Fine id res' msg
  unfolding run_commands ran
  run_commands-Fine machine ctx id [] res res' none c c' own good e =
      let same : res ≡ res' = ground (arith, e) in
      subst (λ (r : JobResult). (r.id ≡ id) × (r.error ≡ none)) same (own, good)
  run_commands-Fine machine ctx id [] res res' (some m) c c' own good e = absurd (ground (arith, e))
  run_commands-Fine machine ctx id (cmd ∷ cmds) res res' msg c c' own good e =
      elim (Option-cases (machine.render cmd ctx)) [
        | inl bad ↦ absurd (ground (arith, e, bad))
        | inr (cmd', made) ↦ elim (Option-cases (execute_command machine cmd').1.error) [
          | inr (m, failed) ↦ failed_command cmd' made m failed msg e
          | inl fine ↦
              let rest : run_commands machine ctx id cmds (ran res (execute_command machine cmd'))
                    (work_on id (machine.output cmd') c)
                  ≡ returns ((res', msg), c') =
                ground (arith, e, made, fine) in
              run_commands-Fine machine ctx id cmds (ran res (execute_command machine cmd')) res'
                msg (work_on id (machine.output cmd') c) c' own good rest
        ]
      ]
    where
      failed_command :
          (cmd' : Cmd)
          → machine.render cmd ctx ≡ some cmd'
          → (m : Text) → (execute_command machine cmd').1.error ≡ some m
          → (msg : Option Text)
          → run_commands machine ctx id (cmd ∷ cmds) res c ≡ returns ((res', msg), c')
          → Fine id res' msg
      failed_command cmd' made m failed none e = absurd (ground (arith, e, made, failed))
      failed_command cmd' made m failed (some x) e = ground (arith, e, made, failed, own)

  -- The same of a call that gives a result.
  unfoldable pub FineAfter : BuildId → Outcome (Executed Tree) → Type 0
  FineAfter id panics = Unit {0}
  FineAfter id blocks = Unit {0}
  FineAfter id (returns ((res, e), c)) = Fine id res e

  settled-Fine :
      (ends : Ends Tree) (id : BuildId) (deps : List BuildId) (res : JobResult) (msg : Option Text)
      (c : Cache Tree)
      → Fine id res msg
      → FineAfter id (returns (settle_job ends id deps ((res, msg), c)))
  unfolding settle_job FineAfter aborted committed_job
  settled-Fine ends id deps res (some m) c own = after_abort (abort id ends.removal c)
    where
      after_abort :
          (r : Cache Tree × Result Error (Unit {0})) → FineAfter id (returns (aborted res m r))
      after_abort (d, err e) = own
      after_abort (d, ok x) = own
  settled-Fine ends id deps res none c (own, good) =
      after_commit (commit id ends.rename (unlock_all deps c))
    where
      after_commit :
          (r : Cache Tree × Result Error (Unit {0})) → FineAfter id (returns (committed_job res r))
      after_commit (d, err e) = own
      after_commit (d, ok x) = (own, good)

  created-Fine :
      (machine : Machine Tree) (ends : Ends Tree) (job : Job)
      (r : Cache Tree × Result Error (Unit {0}))
      → FineAfter job.id (run_created machine ends job r)
  unfolding run_created FineAfter empty_result
  created-Fine machine ends job (c, err e) = refl
  created-Fine machine ends job (c, ok x) =
      elim (Outcome-cases (get_deps ends.dep_stat job.deps c)) [
        | inl p ↦
            let e : run_created machine ends job (c, ok x) ≡ panics = ground (arith, p) in
            subst (FineAfter job.id) (sym e) tt
        | inr (inl p) ↦
            let e : run_created machine ends job (c, ok x) ≡ blocks = ground (arith, p) in
            subst (FineAfter job.id) (sym e) tt
        | inr (inr (d, p)) ↦
            elim (Outcome-cases (
              run_commands machine (job_context ends job.deps) job.id job.cmds (empty_result job.id)
                d)) [
                  | inl q ↦
                      let e : run_created machine ends job (c, ok x) ≡ panics =
                        ground (arith, p, q) in
                      subst (FineAfter job.id) (sym e) tt
                  | inr (inl q) ↦
                      let e : run_created machine ends job (c, ok x) ≡ blocks =
                        ground (arith, p, q) in
                      subst (FineAfter job.id) (sym e) tt
                  | inr (inr (((res, msg), b), q)) ↦
                      let e : run_created machine ends job (c, ok x)
                          ≡ returns (settle_job ends job.id job.deps ((res, msg), b)) =
                        ground (arith, p, q) in
                      subst (FineAfter job.id) (sym e) (
                        settled-Fine ends job.id job.deps res msg b (
                          run_commands-Fine machine (job_context ends job.deps) job.id job.cmds
                            (empty_result job.id) res msg d b refl refl q))
                ]
      ]

  pub execute_job-FineAfter :
      (machine : Machine Tree) (ends : Ends Tree) (linked : Result LinkError (Unit {0})) (job : Job)
      (c : Cache Tree)
      → FineAfter job.id (execute_job machine ends linked job c)
  unfolding execute_job FineAfter empty_result
  execute_job-FineAfter machine ends (err e) job c = refl
  execute_job-FineAfter machine ends (ok x) job c =
      created-Fine machine ends job (create job.id ends.empty ends.create_stat ends.mkdir c)
