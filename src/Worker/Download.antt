-- ===== src/Worker/Download.antt =====
-- pkg/worker/download.go and the download of pkg/artifact/client.go. What the other side sends, or how
-- the request fails, is an argument.
pub mod Artifacts
pub mod Fetched
pub mod Tests
use distbuild.Common.{
  ℕ, ◌≡◌, Bool, true, false, Option, none, some, List, [], ◌∷◌, ◌++◌, Dict, insert, Result, ok, err,
}
use distbuild.Build.{Text, BuildId, id_discrete}
use distbuild.Api.{WorkerId}
use distbuild.Artifact.{
  OsError, Error, not_found, exists, write_locked, read_locked, os, Cache, Removal, create, commit,
  abort, get, read_unlock,
}

-- The reply to `GET /artifact`: none, another status than 200, or a stream that gives a directory or
-- breaks off.
pub data Reply (Tree : Type 0) : Type 0 where
  unreachable refused : Reply Tree
  broken : Tree → Reply Tree
  received : Tree → Reply Tree

pub data DownloadError : Type 0 where
  no_reply bad_status broken_stream : DownloadError
  not_created not_committed unexpected : Error → DownloadError

-- How the system calls of a download end.
pub record Ends (Tree : Type 0) : Type 0 where
  pub stat : Option OsError
  pub create_stat : Option OsError
  pub mkdir : Option OsError
  pub empty : Tree
  pub removal : Removal Tree
  pub rename : Option OsError
  pub reply : Reply Tree

abbrev pub Done : Type 0 → Type 0
Done Tree = Cache Tree × Result DownloadError (Unit {0})

with_added : BuildId → Bool → List BuildId → List BuildId
with_added id true ids = ids ++ id ∷ []
with_added id false ids = ids

module _ {Tree : Type 0} where
  pub fill : BuildId → Tree → Cache Tree → Cache Tree
  fill id tree c = record c { staged = insert id_discrete c.staged id tree }

  pub committed : Cache Tree × Result Error (Unit {0}) → Done Tree
  committed (c, ok _) = (c, ok tt)
  committed (c, err e) = (c, err (not_committed e))

  receive :
      BuildId → Ends Tree → Result Tree Tree → Cache Tree × Result Error (Unit {0}) → Done Tree
  receive id ends stream (c, err e) = (c, err (not_created e))
  receive id ends (err part) (c, ok _) =
      ((abort id ends.removal (fill id part c)).0, err broken_stream)
  receive id ends (ok tree) (c, ok _) = committed (commit id ends.rename (fill id tree c))

  store_reply : BuildId → Ends Tree → Reply Tree → Cache Tree → Done Tree
  store_reply id ends unreachable c = (c, err no_reply)
  store_reply id ends refused c = (c, err bad_status)
  store_reply id ends (broken part) c =
      receive id ends (err part) (create id ends.empty ends.create_stat ends.mkdir c)
  store_reply id ends (received tree) c =
      receive id ends (ok tree) (create id ends.empty ends.create_stat ends.mkdir c)

  -- `artifact.Download`
  pub download : BuildId → Ends Tree → Cache Tree → Done Tree
  download id ends c = store_reply id ends ends.reply c

  added : Done Tree → Cache Tree × Result DownloadError Bool
  added (c, ok _) = (c, ok true)
  added (c, err e) = (c, err e)

  -- One artifact: it is there, or it is downloaded. The flag says whether it was added.
  fetch_missing :
      BuildId → Ends Tree → Cache Tree × Result Error Tree → Cache Tree × Result DownloadError Bool
  fetch_missing id ends (c, ok tree) = (read_unlock id c, ok false)
  fetch_missing id ends (c, err not_found) = added (download id ends c)
  fetch_missing id ends (c, err e) = (c, err (unexpected e))

  pub fetch : BuildId → Ends Tree → Cache Tree → Cache Tree × Result DownloadError Bool
  fetch id ends c = fetch_missing id ends (get id ends.stat c)

  fetch_next :
      BuildId
      → List BuildId
      → (List BuildId → Cache Tree → (Cache Tree × List BuildId) × Result DownloadError (Unit {0}))
      → Cache Tree × Result DownloadError Bool
      → (Cache Tree × List BuildId) × Result DownloadError (Unit {0})
  fetch_next id ids rest (c, err e) = ((c, ids), err e)
  fetch_next id ids rest (c, ok added) = rest (with_added id added ids) c

  -- The loop of `downloadArtifacts`, with `addedArtifacts`.
  pub fetch_all :
      (BuildId → Ends Tree)
      → Dict BuildId WorkerId
      → List BuildId
      → Cache Tree
      → (Cache Tree × List BuildId) × Result DownloadError (Unit {0})
  fetch_all ends [] ids c = ((c, ids), ok tt)
  fetch_all ends ((id, w) ∷ artifacts) ids c =
      fetch_next id ids (fetch_all ends artifacts) (fetch id (ends id) c)

  -- `downloadArtifacts`, with what it adds to the worker's state: the argument of the deferred
  -- `addArtifacts` is the slice as it is when the function begins.
  pub download_artifacts :
      (BuildId → Ends Tree)
      → Dict BuildId WorkerId
      → Cache Tree
      → (Cache Tree × Result DownloadError (Unit {0})) × List BuildId
  download_artifacts ends artifacts c =
      let ((c', ids), r) = fetch_all ends artifacts [] c in ((c', r), [])
