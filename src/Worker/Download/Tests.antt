-- ===== src/Worker/Download/Tests.antt =====
-- One artifact is there and one is fetched from another worker. A directory is a number here.
use distbuild.Common.{ℕ, ◌≡◌, refl, none, List, [], ◌∷◌, All, ok, lookup}
use distbuild.Build.{BuildId}
use distbuild.Build.Id.Tests.{id_of}
use distbuild.Api.{WorkerId}
use distbuild.Artifact.{Cache, removed, new_cache}
use distbuild.Worker.Execute.Locks.{Reads}
use distbuild.Worker.Download.{received, Ends, download_artifacts}
use distbuild.Worker.Download.Artifacts.{download_artifacts-Has}
use distbuild.Worker.Download.Fetched.{Keeps, Has}

abbrev with_one : Cache ℕ
unfolding new_cache
with_one = new_cache ((id_of 1, 40) ∷ [])

no_readers : Reads (λ k. 0) with_one
unfolding new_cache lookup
no_readers k = refl

abbrev ends : BuildId → Ends ℕ
ends id = record {
  stat = none;
  create_stat = none;
  mkdir = none;
  empty = 0;
  removal = removed;
  rename = none;
  reply = received 50;
}

abbrev needed : List (BuildId × WorkerId)
needed = (id_of 1, b'a' ∷ []) ∷ (id_of 2, b'b' ∷ []) ∷ []

download_artifacts-Has_example :
    Keeps (λ k. 0) with_one (download_artifacts ends needed with_one).0.0
    × ((download_artifacts ends needed with_one).0.1 ≡ ok tt
        → All
            (λ (a : BuildId × WorkerId). Has (download_artifacts ends needed with_one).0.0 a.0)
            needed)
download_artifacts-Has_example = download_artifacts-Has (λ k. 0) ends needed with_one no_readers
