-- ===== src/Worker/Download/Artifacts.antt =====
-- After the downloads the artifacts of a job are there.
use distbuild.Common.{
  ℕ, ◌≡◌, refl, sym, ap, subst, ◌∙◌, Bool, none, List, [], ◌∷◌, All, Dict, lookup, Result, ok, err,
  inl, inr, arith,
}
use distbuild.Build.{BuildId, id_discrete}
use distbuild.Api.{WorkerId}
use distbuild.Artifact.{
  Error, not_found, exists, write_locked, read_locked, os, Cache, create, read_unlock,
}
use distbuild.Artifact.Locks.{ReadLocked, WriteLocked, unlock_reading, read_unlock_rest}
use distbuild.Artifact.Outcomes.{get_outcome, create_outcome}
use distbuild.Worker.Execute.Locks.{Reads}
use distbuild.Worker.Download.{
  Reply, unreachable, refused, broken, received, DownloadError, Ends, Done, receive, store_reply,
  download, added, fetch_missing, fetch, with_added, fetch_next, fetch_all, download_artifacts,
}
use distbuild.Worker.Download.Fetched.{
  Fetches, Has, Keeps, Keeps-trans, Unchanged-Keeps, aborted-Keeps, committed-Fetches,
}

module _ {Tree : Type 0} where
  receive-Fetches :
      (n : BuildId → ℕ) (id : BuildId) (ends : Ends Tree) (stream : Result Tree Tree)
      (c : Cache Tree)
      → Reads n c
      → Fetches n id c (receive id ends stream (create id ends.empty ends.create_stat ends.mkdir c))
  unfolding receive Fetches
  receive-Fetches n id ends stream c reads =
      elim (create_outcome id ends.empty ends.create_stat ends.mkdir c) [
        | inl (e, a, fails, u) ↦
            subst (λ r. Fetches n id c (receive id ends stream r)) (sym fails)
              (Unchanged-Keeps n c a reads u)
        | inr (a, made, locked, absent) ↦
            subst (λ r. Fetches n id c (receive id ends stream r)) (sym made)
              (streamed stream a locked absent)
      ]
    where
      streamed :
          (stream : Result Tree Tree) (a : Cache Tree)
          → WriteLocked id c a
          → lookup id_discrete c.committed id ≡ none
          → Fetches n id c (receive id ends stream (a, ok tt))
      streamed (err part) a locked absent = aborted-Keeps n id ends c a part reads locked
      streamed (ok tree) a locked absent = committed-Fetches n id ends c a tree reads locked absent

  download-Fetches :
      (n : BuildId → ℕ) (id : BuildId) (ends : Ends Tree) (c : Cache Tree)
      → Reads n c
      → Fetches n id c (download id ends c)
  unfolding download store_reply Fetches
  download-Fetches n id ends c reads = stored ends.reply
    where
      same : Keeps n c c
      same = record { reads = reads; writing = λ k. refl; committed = λ k tree h. h }

      stored : (reply : Reply Tree) → Fetches n id c (store_reply id ends reply c)
      stored unreachable = same
      stored refused = same
      stored (broken part) = receive-Fetches n id ends (err part) c reads
      stored (received tree) = receive-Fetches n id ends (ok tree) c reads

  added-Fetches :
      (n : BuildId → ℕ) (id : BuildId) (c : Cache Tree) (r : Done Tree)
      → Fetches n id c r
      → Fetches n id c (added r)
  unfolding added Fetches
  added-Fetches n id c (d, ok x) h = h
  added-Fetches n id c (d, err e) h = h

  -- A lock taken and given back at once.
  unlocked-Keeps :
      (n : BuildId → ℕ) (id : BuildId) (c a : Cache Tree)
      → Reads n c
      → ReadLocked id (n id) c a
      → Keeps n c (read_unlock id a)
  unlocked-Keeps n id c a reads l =
      let (writing, dirs, _) = read_unlock_rest id a in
      record {
        reads = λ k.
            unlock_reading id a (n id) (ground (arith, l.reading id)) k
            ∙ ground (arith, l.reading k, reads k);
        writing = λ k. ap (λ m. lookup id_discrete m k) writing ∙ l.writing k;
        committed = λ k v h. ap (λ m. lookup id_discrete m k) (dirs ∙ l.committed) ∙ h;
      }

  missing-Fetches :
      (n : BuildId → ℕ) (id : BuildId) (ends : Ends Tree) (c a : Cache Tree) (e : Error)
      → Reads n c
      → Keeps n c a
      → Fetches n id c (fetch_missing id ends (a, err e))
  unfolding Fetches fetch_missing
  missing-Fetches n id ends c a not_found reads kept =
      later (added (download id ends a))
        (added-Fetches n id a (download id ends a) (download-Fetches n id ends a kept.reads))
    where
      later : (r : Cache Tree × Result DownloadError Bool) → Fetches n id a r → Fetches n id c r
      later (d, ok x) (k, there) = (Keeps-trans n c a d kept k, there)
      later (d, err x) k = Keeps-trans n c a d kept k
  missing-Fetches n id ends c a exists reads kept = kept
  missing-Fetches n id ends c a write_locked reads kept = kept
  missing-Fetches n id ends c a read_locked reads kept = kept
  missing-Fetches n id ends c a (os x) reads kept = kept

  fetch-Fetches :
      (n : BuildId → ℕ) (id : BuildId) (ends : Ends Tree) (c : Cache Tree)
      → Reads n c
      → Fetches n id c (fetch id ends c)
  unfolding Fetches fetch fetch_missing
  fetch-Fetches n id ends c reads = elim (get_outcome id ends.stat c (n id) (reads id)) [
    | inl (tree, a, e, found, l) ↦
        subst (λ r. Fetches n id c (fetch_missing id ends r)) (sym e)
          (
            unlocked-Keeps n id c a reads l,
            (
              tree,
              ap (λ m. lookup id_discrete m id) ((read_unlock_rest id a).1 ∙ l.committed) ∙ found,
            ),
          )
    | inr (x, a, e, u) ↦
        subst (λ r. Fetches n id c (fetch_missing id ends r)) (sym e)
          (missing-Fetches n id ends c a x reads (Unchanged-Keeps n c a reads u))
  ]

  -- What holds after the loop: of the artifacts only when it succeeds.
  Fetched :
      (BuildId → ℕ)
      → Dict BuildId WorkerId
      → Cache Tree
      → (Cache Tree × List BuildId) × Result DownloadError (Unit {0})
      → Type 0
  Fetched n artifacts c ((d, ids), ok x) =
      Keeps n c d × All (λ (a : BuildId × WorkerId). Has d a.0) artifacts
  Fetched n artifacts c ((d, ids), err e) = Keeps n c d

  fetch_all-Fetched :
      (n : BuildId → ℕ) (ends : BuildId → Ends Tree) (artifacts : Dict BuildId WorkerId)
      (ids : List BuildId) (c : Cache Tree)
      → Reads n c
      → Fetched n artifacts c (fetch_all ends artifacts ids c)
  unfolding fetch_all Fetched Fetches fetch_next
  fetch_all-Fetched n ends [] ids c reads =
      (record { reads = reads; writing = λ k. refl; committed = λ k tree h. h }, tt)
  fetch_all-Fetched n ends ((id, w) ∷ artifacts) ids c reads =
      next (λ ids d reads. fetch_all-Fetched n ends artifacts ids d reads) (fetch id (ends id) c)
        (fetch-Fetches n id (ends id) c reads)
    where
      rest :
          (d : Cache Tree)
          → Keeps n c d
          → Has d id
          → (r : (Cache Tree × List BuildId) × Result DownloadError (Unit {0}))
          → Fetched n artifacts d r
          → Fetched n ((id, w) ∷ artifacts) c r
      rest d kept (tree, there) ((b, ids), ok x) (k, all) =
          (Keeps-trans n c d b kept k, ((tree, k.committed id tree there), all))
      rest d kept there ((b, ids), err e) k = Keeps-trans n c d b kept k

      next :
          ((ids : List BuildId) (d : Cache Tree)
            → Reads n d
            → Fetched n artifacts d (fetch_all ends artifacts ids d))
          → (r : Cache Tree × Result DownloadError Bool) → Fetches n id c r
          → Fetched n ((id, w) ∷ artifacts) c (fetch_next id ids (fetch_all ends artifacts) r)
      next again (d, ok more) (k, there) =
          rest d k there (fetch_all ends artifacts (with_added id more ids) d)
            (again (with_added id more ids) d k.reads)
      next again (d, err e) k = k

  -- Whatever the other workers reply and whichever system calls fail, the downloads leave every lock
  -- as it was and every committed artifact in its place, and when they succeed every artifact that the
  -- job names is committed.
  pub download_artifacts-Has :
      (n : BuildId → ℕ) (ends : BuildId → Ends Tree) (artifacts : Dict BuildId WorkerId)
      (c : Cache Tree)
      → Reads n c
      → Keeps n c (download_artifacts ends artifacts c).0.0
        × ((download_artifacts ends artifacts c).0.1 ≡ ok tt
            → All
                (λ (a : BuildId × WorkerId). Has (download_artifacts ends artifacts c).0.0 a.0)
                artifacts)
  unfolding download_artifacts Fetched
  download_artifacts-Has n ends artifacts c reads =
      split (fetch_all ends artifacts [] c) (fetch_all-Fetched n ends artifacts [] c reads)
    where
      split :
          (r : (Cache Tree × List BuildId) × Result DownloadError (Unit {0}))
          → Fetched n artifacts c r
          → Keeps n c r.0.0
            × (r.1 ≡ ok tt → All (λ (a : BuildId × WorkerId). Has r.0.0 a.0) artifacts)
      split ((d, ids), ok x) (k, all) = (k, λ _. all)
      split ((d, ids), err e) k = (k, λ h. absurd (cc))
