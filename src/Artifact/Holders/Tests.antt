-- ===== src/Artifact/Holders/Tests.antt =====
-- Runs of the artifact cache at concrete inputs. A directory is a number here.
use distbuild.Common.{ℕ, ◌≡◌, ◌<◌, refl, none, List, [], ◌∷◌, insert, lookup, arith}
use distbuild.Build.{BuildId, id_discrete}
use distbuild.Build.Id.Tests.{id_of}
use distbuild.Artifact.{
  new_cache, get, read_lock, write_lock, create, begin_remove, make_staged, mkdir, stat_committed,
}
use distbuild.Artifact.Holders
use distbuild.Artifact.Holders.{
  System, Event, gets, unlocks, creates, writes, commits, aborts, removes, removal_ends, step, run,
}
use distbuild.Artifact.Holders.Exclusion.{run-Fits}
use distbuild.Artifact.Holders.Counted.{Fits}
use distbuild.Artifact.Holders.Readers.{held_artifact_stays}

-- Artifact 1 lies on the disk; no one holds a lock.
abbrev at_start : System ℕ
unfolding new_cache
at_start = record {
  cache = new_cache ((id_of 1, 40) ∷ []);
  readers = [];
  writers = [];
  removers = [];
}

at_start-Fits : (k : BuildId) → Fits at_start k
unfolding new_cache lookup
at_start-Fits k = record { reads = refl; writes = refl; one = omega arith; apart = λ h. refl }

-- A reader of 1, a writer of 2, and a removal of 1 that the reader holds off.
abbrev busy : List (Event ℕ)
busy = gets (id_of 1) none ∷ creates (id_of 2) 0 none none ∷ removes (id_of 1) none ∷ []

run-Fits_example : Fits (run busy at_start) (id_of 1)
run-Fits_example = run-Fits busy at_start at_start-Fits (id_of 1)

busy_readers : (run busy at_start).readers ≡ id_of 1 ∷ []
unfolding run step new_cache get read_lock stat_committed create write_lock make_staged mkdir
    begin_remove id_discrete lookup insert
busy_readers = refl

busy_removers : (run busy at_start).removers ≡ []
unfolding run step new_cache get read_lock stat_committed create write_lock make_staged mkdir
    begin_remove id_discrete lookup insert
busy_removers = refl

-- The others go on: the writer commits, a removal of 1 is tried again, and 1 cannot be created anew.
abbrev later : List (Event ℕ)
later = commits (id_of 2) none ∷ removes (id_of 1) none ∷ creates (id_of 1) 0 none none ∷ []

one_reader : 0 < Holders.count (id_of 1) (run busy at_start).readers
unfolding id_discrete
one_reader = rw busy_readers (omega arith)

held_artifact_stays_example :
    lookup id_discrete (run later (run busy at_start)).cache.committed (id_of 1)
    ≡ lookup id_discrete (run busy at_start).cache.committed (id_of 1)
held_artifact_stays_example =
    held_artifact_stays later (run busy at_start) (id_of 1) (run-Fits busy at_start at_start-Fits)
      one_reader (tt, (tt, (tt, tt)))

-- An abort of artifact 3 has left 5 in its staging directory.
abbrev with_remains : System ℕ
with_remains = record at_start { cache = record at_start.cache { staged = (id_of 3, 5) ∷ [] } }
