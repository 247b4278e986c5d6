-- ===== src/Worker/Download/Fetched.antt =====
-- What the download of one artifact by pkg/worker/download.go leaves in the cache.
use distbuild.Common.{
  ℕ, ◌≡◌, refl, sym, ap, subst, ◌∙◌, none, some, lookup, insert, Result, ok, err, inl, inr, arith,
}
use distbuild.Build.{BuildId, id_discrete}
use distbuild.Artifact.{Cache, commit, abort}
use distbuild.Artifact.Locks.{Agrees, Unchanged, WriteLocked}
use distbuild.Artifact.Outcomes.{commit_outcome, abort_outcome, freed_again}
use distbuild.Worker.Execute.Locks.{Reads}
use distbuild.Worker.Download.{DownloadError, Ends, fill, committed}

module _ {Tree : Type 0} where
  -- The locks are those of before, and what was committed is still there.
  pub record Keeps (n : BuildId → ℕ) (c c' : Cache Tree) : Type 0 where
    pub reads : Reads n c'
    pub writing : Agrees c.writing c'.writing
    pub committed :
        (k : BuildId) (tree : Tree)
        → lookup id_discrete c.committed k ≡ some tree
        → lookup id_discrete c'.committed k ≡ some tree

  pub Keeps-trans : (n : BuildId → ℕ) (a b c : Cache Tree) → Keeps n a b → Keeps n b c → Keeps n a c
  Keeps-trans n a b c f g = record {
    reads = g.reads;
    writing = λ k. g.writing k ∙ f.writing k;
    committed = λ k tree h. g.committed k tree (f.committed k tree h);
  }

  abbrev pub Has : Cache Tree → BuildId → Type 0
  Has c id = (tree : Tree) × (lookup id_discrete c.committed id ≡ some tree)

  -- A call for one artifact: it keeps the rest, and when it succeeds the artifact is there.
  unfoldable pub Fetches :
      {T : Type 0}
      → (BuildId → ℕ)
      → BuildId
      → Cache Tree
      → Cache Tree × Result DownloadError T
      → Type 0
  Fetches n id c (c', ok x) = Keeps n c c' × Has c' id
  Fetches n id c (c', err e) = Keeps n c c'

  pub Unchanged-Keeps :
      (n : BuildId → ℕ) (c c' : Cache Tree) → Reads n c → Unchanged c c' → Keeps n c c'
  Unchanged-Keeps n c c' reads u = record {
    reads = λ k. u.reading k ∙ reads k;
    writing = u.writing;
    committed = λ k tree h. ap (λ m. lookup id_discrete m k) u.committed ∙ h;
  }

  pub committed-Fetches :
      (n : BuildId → ℕ) (id : BuildId) (ends : Ends Tree) (c a : Cache Tree) (tree : Tree)
      → Reads n c
      → WriteLocked id c a
      → lookup id_discrete c.committed id ≡ none
      → Fetches n id c (committed (commit id ends.rename (fill id tree a)))
  unfolding Fetches committed fill
  committed-Fetches n id ends c a tree reads locked absent =
      let b = record a { staged = insert id_discrete a.staged id tree } in
      let (d, freed, how) = commit_outcome id ends.rename b in
      let reads' : Reads n d = λ k. freed.reading k ∙ locked.reading k ∙ reads k in
      let writing = freed_again id c a b d locked (λ k. refl) freed in
      elim how [
        | inl (t, e, _, _, sets) ↦
            subst (λ r. Fetches n id c (committed r)) (sym e)
              (
                record {
                  reads = reads';
                  writing = writing;
                  committed = λ k v h.
                      ground (
                        arith,
                        sets k,
                        h,
                        ap (λ m. lookup id_discrete m k) locked.committed,
                        absent,
                      );
                },
                (t, ground (arith, sets id)),
              )
        | inr (x, e, same) ↦
            subst (λ r. Fetches n id c (committed r)) (sym e)
              record {
                reads = reads';
                writing = writing;
                committed = λ k v h. ap (λ m. lookup id_discrete m k) (same ∙ locked.committed) ∙ h;
              }
      ]

  pub aborted-Keeps :
      (n : BuildId → ℕ) (id : BuildId) (ends : Ends Tree) (c a : Cache Tree) (part : Tree)
      → Reads n c
      → WriteLocked id c a
      → Keeps n c (abort id ends.removal (fill id part a)).0
  unfolding fill
  aborted-Keeps n id ends c a part reads locked =
      let b = record a { staged = insert id_discrete a.staged id part } in
      let (freed, same) = abort_outcome id ends.removal b in
      record {
        reads = λ k. freed.reading k ∙ locked.reading k ∙ reads k;
        writing = freed_again id c a b (abort id ends.removal b).0 locked (λ k. refl) freed;
        committed = λ k v h. ap (λ m. lookup id_discrete m k) (same ∙ locked.committed) ∙ h;
      }
