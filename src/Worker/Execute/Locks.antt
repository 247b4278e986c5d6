-- ===== src/Worker/Execute/Locks.antt =====
-- What a job leaves behind in the cache of artifacts: its locks and the committed directories.
use distbuild.Common.{
  ℕ, suc, ◌+◌, ◌≡◌, refl, ap, ◌∙◌, Option, none, some, Option-cases, List, [], ◌∷◌, All, All-map,
  lookup, ite, ok, returns, inl, inr, arith,
}
use distbuild.Build.{Text, Cmd, BuildId, id_discrete, JobContext}
use distbuild.Api.{JobResult}
use distbuild.Artifact.{OsError, Cache, get, read_unlock}
use distbuild.Artifact.Locks.{tally, Agrees, unlock_reading, read_unlock_rest}
use distbuild.Artifact.Outcomes.{get_outcome}
use distbuild.Artifact.Holders.{count}
use distbuild.Artifact.Holders.Readers.{get_ok}
use distbuild.Worker.Execute.{
  Machine, dep_next, get_deps, unlock_all, ran, execute_command, work_on, run_commands,
}

-- The readers that a job adds.
abbrev pub with_deps : List BuildId → (BuildId → ℕ) → BuildId → ℕ
with_deps deps n k = count k deps + n k

module _ {Tree : Type 0} where
  -- Each artifact has as many readers as `n` says.
  abbrev pub Reads : (BuildId → ℕ) → Cache Tree → Type 0
  Reads n c = (k : BuildId) → lookup id_discrete c.reading k ≡ tally (n k)

  -- The artifact can be had: it is committed and no one writes it.
  pub record Fetchable (c : Cache Tree) (d : BuildId) : Type 0 where
    pub tree : Tree
    pub committed : lookup id_discrete c.committed d ≡ some tree
    pub unwritten : lookup id_discrete c.writing d ≡ none

  keep-Fetchable :
      (c c' : Cache Tree) (d : BuildId)
      → Agrees c.writing c'.writing
      → c'.committed ≡ c.committed
      → Fetchable c d
      → Fetchable c' d
  keep-Fetchable c c' d w same f = record {
    tree = f.tree;
    committed = ap (λ m. lookup id_discrete m d) same ∙ f.committed;
    unwritten = w d ∙ f.unwritten;
  }

  -- The caches differ in the readers and in what is staged.
  pub record Reading (n : BuildId → ℕ) (c c' : Cache Tree) : Type 0 where
    pub reads : Reads n c'
    pub writing : Agrees c.writing c'.writing
    pub committed : c'.committed ≡ c.committed

  Reading-trans :
      (m n : BuildId → ℕ) (a b c : Cache Tree) → Reading m a b → Reading n b c → Reading n a c
  Reading-trans m n a b c f g = record {
    reads = g.reads;
    writing = λ k. g.writing k ∙ f.writing k;
    committed = g.committed ∙ f.committed;
  }

  get-Reading :
      (dep : BuildId) (c : Cache Tree) (n : BuildId → ℕ)
      → Reads n c
      → Fetchable c dep
      → (tree : Tree) × (c' : Cache Tree) × (get dep none c ≡ (c', ok tree))
        × Reading (λ k. ite (id_discrete dep k) (suc (n k)) (n k)) c c'
  get-Reading dep c n reads f = elim (get_outcome dep none c (n dep) (reads dep)) [
    | inl (tree, c', e, _, l) ↦ (
      tree,
      c',
      e,
      record {
        reads = λ k. l.reading k ∙ ground (arith, reads k);
        writing = l.writing;
        committed = l.committed;
      },
    )
    | inr (x, c', e, _) ↦ absurd (ground (arith, get_ok dep f.tree c f.committed f.unwritten, e))
  ]

  pub get_deps-Reading :
      (stat : BuildId → Option OsError) (deps : List BuildId) (c : Cache Tree) (n : BuildId → ℕ)
      → Reads n c
      → All (Fetchable c) deps
      → ((d : BuildId) → stat d ≡ none)
      → (c' : Cache Tree) × (get_deps stat deps c ≡ returns c') × Reading (with_deps deps n) c c'
  unfolding get_deps dep_next
  get_deps-Reading stat [] c n reads f s = (
    c,
    refl,
    record { reads = λ k. ground (arith, reads k); writing = λ k. refl; committed = refl },
  )
  get_deps-Reading stat (dep ∷ deps) c n reads (f, fs) s =
      let (tree, c', e, r) = get-Reading dep c n reads f in
      let (c'', e', r') =
        get_deps-Reading stat deps c' (λ k. ite (id_discrete dep k) (suc (n k)) (n k)) r.reads
          (All-map deps (λ d. keep-Fetchable c c' d r.writing r.committed) fs) s in
      (
        c'',
        ground (arith, s dep, e, e'),
        record {
          reads = λ k. r'.reads k ∙ ground arith;
          writing = λ k. r'.writing k ∙ r.writing k;
          committed = r'.committed ∙ r.committed;
        },
      )

  unlock-Reading :
      (dep : BuildId) (deps : List BuildId) (c : Cache Tree) (n : BuildId → ℕ)
      → Reads (with_deps (dep ∷ deps) n) c
      → Reading (with_deps deps n) c (read_unlock dep c)
  unlock-Reading dep deps c n reads = record {
    reads = λ k.
        unlock_reading dep c (count dep deps + n dep) (reads dep ∙ ground arith) k
        ∙ ground (arith, reads k);
    writing = λ k. ap (λ m. lookup id_discrete m k) (read_unlock_rest dep c).0;
    committed = (read_unlock_rest dep c).1;
  }

  pub unlock_all-Reading :
      (deps : List BuildId) (c : Cache Tree) (n : BuildId → ℕ)
      → Reads (with_deps deps n) c
      → Reading n c (unlock_all deps c)
  unfolding unlock_all
  unlock_all-Reading [] c n reads = record {
    reads = λ k. ground (arith, reads k);
    writing = λ k. refl;
    committed = refl;
  }
  unlock_all-Reading (dep ∷ deps) c n reads =
      let r = unlock-Reading dep deps c n reads in
      Reading-trans (with_deps deps n) n c (read_unlock dep c) (unlock_all deps (read_unlock dep c))
        r (unlock_all-Reading deps (read_unlock dep c) n r.reads)

  -- Commands change only what is staged.
  pub record Working (c c' : Cache Tree) : Type 0 where
    pub reading : c'.reading ≡ c.reading
    pub writing : c'.writing ≡ c.writing
    pub committed : c'.committed ≡ c.committed

  work_on-Working : (id : BuildId) (f : Tree → Tree) (c : Cache Tree) → Working c (work_on id f c)
  unfolding work_on
  work_on-Working id f c = ground arith

  Working-trans : (a b c : Cache Tree) → Working a b → Working b c → Working a c
  Working-trans a b c f g = record {
    reading = g.reading ∙ f.reading;
    writing = g.writing ∙ f.writing;
    committed = g.committed ∙ f.committed;
  }

  pub run_commands-Working :
      (machine : Machine Tree) (ctx : JobContext) (id : BuildId) (cmds : List Cmd) (res : JobResult)
      (c : Cache Tree)
      → ((cmd : Cmd) → (cmd' : Cmd) × (machine.render cmd ctx ≡ some cmd'))
      → (r : JobResult × Option Text) × (c' : Cache Tree) × (run_commands machine ctx id cmds res c
          ≡ returns (r, c'))
        × Working c c'
  unfolding run_commands
  run_commands-Working machine ctx id [] res c renders =
      ((res, none), c, refl, record { reading = refl; writing = refl; committed = refl })
  run_commands-Working machine ctx id (cmd ∷ cmds) res c renders =
      let (cmd', e) = renders cmd in
      let (code, p) = execute_command machine cmd' in
      let c' = work_on id (machine.output cmd') c in
      elim (Option-cases (execute_command machine cmd').1.error) [
        | inr (msg, bad) ↦ (
          (record res { exit_code = (execute_command machine cmd').0; error = some msg }, some msg),
          c',
          ground (arith, e, bad),
          work_on-Working id (machine.output cmd') c,
        )
        | inl good ↦
            let (r, c'', e', w) =
              run_commands-Working machine ctx id cmds (ran res (execute_command machine cmd')) c'
                renders in
            (
              r,
              c'',
              ground (arith, e, good, e'),
              Working-trans c c' c'' (work_on-Working id (machine.output cmd') c) w,
            )
      ]
