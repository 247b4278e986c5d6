-- ===== src/Filecache/Upload.antt =====
-- The upload of a file ends.
use distbuild.Common.{
  ℕ, suc, ◌≡◌, ◌≢◌, refl, sym, ap, ◌∙◌, none, some, Option-cases, List, [], lookup, insert, Result,
  ok, err, Outcome, returns, panics, blocks, ◌andthen◌, inl, inr, arith,
}
use distbuild.Build.{BuildId, id_discrete}
use distbuild.Artifact
use distbuild.Artifact.{
  OsError, Cache, Removal, begin_remove, end_remove, create, commit, abort, get,
}
use distbuild.Artifact.Outcomes.{create-fresh, end_remove_gone}
use distbuild.Filecache.{
  FileError, not_found, exists, write_locked, read_locked, other, convert_err, convert, converted,
  Files, System, remove_locked, remove, open_file, write, retry, opened, handle_put,
}

-- Only "exists" is converted to "exists".
convert_err-exists : (e : Artifact.Error) → convert_err e ≡ exists → e ≡ Artifact.Error.exists
unfolding convert_err
convert_err-exists Artifact.Error.not_found h = absurd (cc)
convert_err-exists Artifact.Error.exists h = refl
convert_err-exists Artifact.Error.write_locked h = absurd (cc)
convert_err-exists Artifact.Error.read_locked h = absurd (cc)
convert_err-exists (Artifact.Error.os e) h = absurd (cc)

-- The states in which `Write` can end.
pub data Written (o : Outcome (Files × Result FileError (Unit {0}))) : Type 0 where
  crashed : o ≡ panics → Written o
  wrote : (c : Files) → o ≡ returns (c, ok tt) → Written o
  there : (c : Files) → o ≡ returns (c, err exists) → Written o
  refused : (c : Files) (e : FileError) → e ≢ exists → o ≡ returns (c, err e) → Written o

refused_or_there : (c : Files) (e : FileError) → Written (returns (c, err e))
refused_or_there c not_found = refused c not_found (λ h. absurd (cc)) refl
refused_or_there c exists = there c refl
refused_or_there c write_locked = refused c write_locked (λ h. absurd (cc)) refl
refused_or_there c read_locked = refused c read_locked (λ h. absurd (cc)) refl
refused_or_there c (other e) = refused c (other e) (λ h. absurd (cc)) refl

open_file-Written :
    (id : BuildId) (sys : System) (r : Files × Result Artifact.Error (Unit {0}))
    → Written (open_file id sys r)
unfolding open_file
open_file-Written id sys (c, err e) = refused_or_there c (convert_err e)
open_file-Written id sys (c, ok _) = elim (Option-cases sys.create_file) [
  | inr (e, bad) ↦ crashed (ground arith)
  | inl good ↦ wrote (record c { staged = insert id_discrete c.staged id (some []) }) (ground arith)
]

open_file-fresh :
    (id : BuildId) (sys : System) (r : Files × Result Artifact.Error (Unit {0})) (c : Files)
    → r.1 ≢ err Artifact.Error.exists
    → open_file id sys r ≢ returns (c, err exists)
unfolding open_file
open_file-fresh id sys (c', err e) c fresh h = fresh (ap err (convert_err-exists e (ground arith)))
open_file-fresh id sys (c', ok _) c fresh h = absurd (ground arith)

pub write-Written : (id : BuildId) (sys : System) (c : Files) → Written (write id sys c)
unfolding write
write-Written id sys c = open_file-Written id sys (create id none sys.stat sys.mkdir_all c)

write-fresh :
    (id : BuildId) (sys : System) (c d : Files)
    → lookup id_discrete c.committed id ≡ none
    → write id sys c ≢ returns (d, err exists)
unfolding write
write-fresh id sys c d absent =
    open_file-fresh id sys (create id none sys.stat sys.mkdir_all c) d
      (create-fresh id none sys.stat sys.mkdir_all c absent)

-- Without a directory in the way the first try is the last.
fresh_ends :
    (fuel : ℕ) (id : BuildId) (body : List ℕ) (sys : System) (c : Files)
    → lookup id_discrete c.committed id ≡ none
    → handle_put (suc fuel) id body sys c ≢ blocks
unfolding handle_put opened
fresh_ends fuel id body sys c absent e = elim (write-Written id sys c) [
  | crashed p ↦ absurd (ground arith)
  | wrote d p ↦ absurd (ground arith)
  | there d p ↦ absurd (write-fresh id sys c d absent p)
  | refused d not_found ne p ↦ absurd (ground arith)
  | refused d exists ne p ↦ absurd (ne refl)
  | refused d write_locked ne p ↦ absurd (ground arith)
  | refused d read_locked ne p ↦ absurd (ground arith)
  | refused d (other x) ne p ↦ absurd (ground arith)
]

-- A removal fails, or leaves no directory.
Removes : BuildId → Files × Result FileError (Unit {0}) → Type 0
Removes id (c, ok _) = lookup id_discrete c.committed id ≡ none
Removes id (c, err e) = Unit {0}

converted-Removes :
    (id : BuildId) (r : Files × Result Artifact.Error (Unit {0}))
    → (r.1 ≡ ok tt → lookup id_discrete r.0.committed id ≡ none)
    → Removes id (converted r)
unfolding Removes converted convert
converted-Removes id (c, ok tt) h = h refl
converted-Removes id (c, err e) h = tt

remove_locked-Removes :
    (id : BuildId) (sys : System) (c : Files) (r : Result Artifact.Error Files)
    → Removes id (remove_locked id sys c r)
unfolding Removes remove_locked
remove_locked-Removes id sys c (err e) = tt
remove_locked-Removes id sys c (ok d) =
    converted-Removes id (end_remove id sys.removal d) (end_remove_gone id sys.removal d)

retry_ends :
    (fuel : ℕ) (id : BuildId) (body : List ℕ) (sys : System)
    (r : Files × Result FileError (Unit {0}))
    → Removes id r
    → retry (handle_put (suc fuel) id body sys) r ≢ blocks
unfolding Removes retry
retry_ends fuel id body sys (c, ok x) gone e = fresh_ends fuel id body sys c gone e
retry_ends fuel id body sys (c, err x) gone e = absurd (cc)

-- The upload jumps back at most once: with fuel for two tries it never runs out of it.
pub handle_put_ends :
    (fuel : ℕ) (id : BuildId) (body : List ℕ) (sys : System) (c : Files)
    → handle_put (suc (suc fuel)) id body sys c ≢ blocks
unfolding handle_put opened remove
handle_put_ends fuel id body sys c e = elim (write-Written id sys c) [
  | crashed p ↦ absurd (ground arith)
  | wrote d p ↦ absurd (ground arith)
  | there d p ↦
      retry_ends fuel id body sys (remove id sys d)
        (remove_locked-Removes id sys d (begin_remove id sys.stat d))
        (sym (ap (λ o. o andthen opened id body sys (handle_put (suc fuel) id body sys)) p) ∙ e)
  | refused d not_found ne p ↦ absurd (ground arith)
  | refused d exists ne p ↦ absurd (ne refl)
  | refused d write_locked ne p ↦ absurd (ground arith)
  | refused d read_locked ne p ↦ absurd (ground arith)
  | refused d (other x) ne p ↦ absurd (ground arith)
]
