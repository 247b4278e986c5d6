-- ===== src/Filecache/Stored.antt =====
-- What an upload stored is found.
use distbuild.Common.{
  ℕ, zero, suc, ◌≡◌, refl, sym, ap, subst, ◌∙◌, none, some, Option-cases, List, lookup, insert,
  lookup-insert_self, Result, ok, err, Outcome, returns, ◌andthen◌, Outcome-cases, inl, inr, arith,
}
use distbuild.Build.{BuildId, id_discrete}
use distbuild.Artifact.{get}
use distbuild.Artifact.Outcomes.{commit_outcome}
use distbuild.Artifact.Holders.Readers.{get_ok}
use distbuild.Filecache.{
  FileError, not_found, exists, write_locked, read_locked, other, convert, Files, System, remove,
  write, closed, close_writer, Response, uploaded, remove_failed, create_failed, close_failed,
  copy_failed, give_up, after_close, fill, retry, opened, handle_put,
}

-- What a response promises.
unfoldable pub Keeps : BuildId → List ℕ → Files × Response → Type 0
Keeps id body (c, uploaded) = (get id none c).1 ≡ ok (some body)
Keeps id body (c, remove_failed e) = Unit {0}
Keeps id body (c, create_failed e) = Unit {0}
Keeps id body (c, close_failed e) = Unit {0}
Keeps id body (c, copy_failed e) = Unit {0}

close_writer-found :
    (id : BuildId) (body : List ℕ) (sys : System) (c d : Files)
    → lookup id_discrete c.staged id ≡ some (some body)
    → close_writer id sys c ≡ (d, ok tt)
    → (get id none d).1 ≡ ok (some body)
unfolding close_writer closed convert
close_writer-found id body sys c d staged e =
    let (c', freed, how) = commit_outcome id sys.rename c in
    elim how [
      | inl (tree, p, was, _, sets) ↦
          let same : c' ≡ d = ground (arith, e, p) in
          subst (λ (d : Files). (get id none d).1 ≡ ok (some body)) same
            (get_ok id (some body) c' (ground (arith, sets id, was, staged))
              (ground (arith, freed.writing id)))
      | inr (x, p, _) ↦ absurd (ground (arith, e, p))
    ]

after_close-Keeps :
    (id : BuildId) (body : List ℕ) (sys : System) (r : Files × Result FileError (Unit {0}))
    → ((d : Files) → r ≡ (d, ok tt) → (get id none d).1 ≡ ok (some body))
    → Keeps id body (after_close id sys r)
unfolding Keeps after_close give_up
after_close-Keeps id body sys (c, ok tt) h = h c refl
after_close-Keeps id body sys (c, err e) h = tt

pub fill-Keeps :
    (id : BuildId) (body : List ℕ) (sys : System) (c : Files) → Keeps id body (fill id body sys c)
unfolding Keeps fill give_up
fill-Keeps id body sys c = elim (Option-cases sys.copy) [
  | inr (e, bad) ↦ rw (bad, fill) tt
  | inl good ↦
      rw (good, fill)
        (after_close-Keeps id body sys (close_writer id sys filled) (λ d.
          close_writer-found id body sys filled d
            (lookup-insert_self id_discrete c.staged id (some body))))
]
  where
    filled : Files
    filled = record c { staged = insert id_discrete c.staged id (some body) }

create_failed-Keeps :
    (id : BuildId) (body : List ℕ) (c : Files) (x : FileError) (r : Files × Response)
    → ◌≡◌ {A = Outcome (Files × Response)} (returns (c, create_failed x)) (returns r)
    → Keeps id body r
unfolding Keeps
create_failed-Keeps id body c x r e =
    let same : (c, create_failed x) ≡ r = cc in subst (Keeps id body) same tt

retry-Keeps :
    (id : BuildId) (body : List ℕ) (again : Files → Outcome (Files × Response))
    → ((c : Files) (r : Files × Response) → again c ≡ returns r → Keeps id body r)
    → (w : Files × Result FileError (Unit {0})) (r : Files × Response) → retry again w ≡ returns r
    → Keeps id body r
unfolding retry Keeps
retry-Keeps id body again keep (c, ok x) r e = keep c r e
retry-Keeps id body again keep (c, err x) r e =
    let same : (c, remove_failed x) ≡ r = cc in subst (Keeps id body) same tt

opened-Keeps :
    (id : BuildId) (body : List ℕ) (sys : System) (again : Files → Outcome (Files × Response))
    → ((c : Files) (r : Files × Response) → again c ≡ returns r → Keeps id body r)
    → (w : Files × Result FileError (Unit {0})) (r : Files × Response)
    → opened id body sys again w ≡ returns r
    → Keeps id body r
unfolding opened
opened-Keeps id body sys again keep (c, ok x) r e =
    let same : fill id body sys c ≡ r = cc in subst (Keeps id body) same (fill-Keeps id body sys c)
opened-Keeps id body sys again keep (c, err exists) r e =
    retry-Keeps id body again keep (remove id sys c) r e
opened-Keeps id body sys again keep (c, err not_found) r e =
    create_failed-Keeps id body c not_found r e
opened-Keeps id body sys again keep (c, err write_locked) r e =
    create_failed-Keeps id body c write_locked r e
opened-Keeps id body sys again keep (c, err read_locked) r e =
    create_failed-Keeps id body c read_locked r e
opened-Keeps id body sys again keep (c, err (other x)) r e =
    create_failed-Keeps id body c (other x) r e

handle_put-Keeps :
    (fuel : ℕ) (id : BuildId) (body : List ℕ) (sys : System) (c : Files) (r : Files × Response)
    → handle_put fuel id body sys c ≡ returns r
    → Keeps id body r
unfolding handle_put
handle_put-Keeps zero id body sys c r e = absurd (cc)
handle_put-Keeps (suc fuel) id body sys c r e = elim (Outcome-cases (write id sys c)) [
  | inl p ↦ absurd (ground arith)
  | inr (inl p) ↦ absurd (ground arith)
  | inr (inr (w, p)) ↦
      opened-Keeps id body sys (handle_put fuel id body sys) (handle_put-Keeps fuel id body sys) w r
        (sym (ap (λ o. o andthen opened id body sys (handle_put fuel id body sys)) p) ∙ e)
]

-- When the response says that the file is uploaded, the cache gives the body that was sent, also
-- where another file had that identifier before.
pub get-handle_put :
    (fuel : ℕ) (id : BuildId) (body : List ℕ) (sys : System) (c d : Files)
    → handle_put fuel id body sys c ≡ returns (d, uploaded)
    → (get id none d).1 ≡ ok (some body)
unfolding Keeps
get-handle_put fuel id body sys c d e = handle_put-Keeps fuel id body sys c (d, uploaded) e
