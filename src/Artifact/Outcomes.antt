-- ===== src/Artifact/Outcomes.antt =====
-- How the operations of the cache end, outcome by outcome.
use distbuild.Common.{
  ℕ, ◌≡◌, ◌≢◌, ◌⊎◌, inl, inr, refl, sym, subst, Bool, false, not, ◌&&◌, Option, none, some,
  Option-cases, Bool-cases, lookup, insert, delete, lookup-insert, lookup-delete,
  lookup-delete_self, lookup-insert_ne, lookup-delete_ne, Result, ok, err, inc, is_some, arith,
}
use distbuild.Build.{BuildId, id_discrete}
use distbuild.Artifact.{
  OsError, Error, write_locked, os, exists, read_locked, Cache, Removal, removed, failed,
  is_positive, readers, read_lock, read_unlock, write_lock, write_unlock, remove_all, end_remove,
  mkdir, make_staged, create, abort, rename, commit, get,
}
use distbuild.Artifact.Locks.{
  Agrees, Agrees-relock, ReadLocked, Sets, Unchanged, Unchanged-refl, WriteFreed, WriteLocked,
  lock_reading, stat_outcome, tally,
}

module _ {Tree : Type 0} where
  pub get_outcome :
      (id : BuildId) (stat : Option OsError) (c : Cache Tree) (n : ℕ)
      → lookup id_discrete c.reading id ≡ tally n
      → ((tree : Tree) × (c' : Cache Tree) × (get id stat c ≡ (c', ok tree))
          × (lookup id_discrete c.committed id ≡ some tree)
          × ReadLocked id n c c')
        ⊎ ((e : Error) × (c' : Cache Tree) × (get id stat c ≡ (c', err e)) × Unchanged c c')
  unfolding get read_lock read_unlock
  get_outcome id stat c n e = elim (Option-cases (lookup id_discrete c.writing id)) [
    | inr (_, busy) ↦ inr (write_locked, c, ground (arith, busy), Unchanged-refl c)
    | inl free ↦
        let locked = record c { reading = insert id_discrete c.reading id (inc (readers c id)) } in
        elim (stat_outcome id stat locked) [
          | inl (tree, done, at) ↦ inl (
            tree,
            locked,
            ground (arith, free, done),
            at,
            record {
              unwritten = free;
              reading = lock_reading id c n e;
              writing = λ k. refl;
              committed = refl;
            },
          )
          | inr (e', fails) ↦ inr (
            e',
            read_unlock id locked,
            ground (arith, free, fails),
            record { reading = Agrees-relock id n c e; writing = λ k. refl; committed = refl },
          )
        ]
  ]

  -- `writeLock` fails, or locks an artifact that no one reads or writes.
  pub write_lock_outcome :
      (id : BuildId) (remove : Bool) (stat : Option OsError) (c : Cache Tree)
      → ((e : Error) × (write_lock id remove stat c ≡ err e))
        ⊎ ((c' : Cache Tree) × (write_lock id remove stat c ≡ ok c')
            × WriteLocked id c c'
            × ((remove ≡ false) → lookup id_discrete c.committed id ≡ none)
            × (c'.staged ≡ c.staged))
  unfolding write_lock
  write_lock_outcome id remove (some e) c = inl (os e, refl)
  write_lock_outcome id remove none c =
      elim (Bool-cases (is_some (lookup id_discrete c.committed id) && not remove)) [
        | inl there ↦ inl (exists, ground arith)
        | inr absent ↦ elim (Option-cases (lookup id_discrete c.writing id)) [
          | inr (_, busy) ↦ inl (write_locked, ground (arith, busy))
          | inl free ↦ elim (Bool-cases (is_positive (readers c id))) [
            | inl read ↦ inl (read_locked, ground (arith, free))
            | inr unread ↦ inr (
              record c { writing = insert id_discrete c.writing id tt },
              ground (arith, free),
              record {
                unwritten = free;
                unread = unread;
                reading = λ k. refl;
                writing = λ k. lookup-insert id_discrete c.writing id k tt;
                committed = refl;
              },
              λ keep. ground arith,
              refl,
            )
          ]
        ]
      ]

  freed :
      (id : BuildId) (c c' : Cache Tree)
      → c'.reading ≡ c.reading
      → c'.writing ≡ delete id_discrete c.writing id
      → WriteFreed id c c'
  freed id c c' r w = record {
    reading = λ k. rw r;
    writing = λ k. rw w (lookup-delete id_discrete c.writing id k);
  }

  -- `Create` fails and leaves locks and committed directories as they were, or takes the write lock of
  -- an artifact that is not there.
  pub create_outcome :
      (id : BuildId) (empty : Tree) (stat mkdir_fails : Option OsError) (c : Cache Tree)
      → ((e : Error) × (c' : Cache Tree) × (create id empty stat mkdir_fails c ≡ (c', err e))
          × Unchanged c c')
        ⊎ ((c' : Cache Tree) × (create id empty stat mkdir_fails c ≡ (c', ok tt))
            × WriteLocked id c c'
            × (lookup id_discrete c.committed id ≡ none))
  unfolding create make_staged write_unlock
  create_outcome id empty stat mkdir_fails c = elim (write_lock_outcome id false stat c) [
    | inl (e, fails) ↦ inl (e, c, ground (arith, fails), Unchanged-refl c)
    | inr (c', done, w, absent, _) ↦ elim (Option-cases mkdir_fails) [
      | inl fine ↦ inr (
        record c' { staged = mkdir id empty c'.staged },
        ground (arith, done),
        record {
          unwritten = w.unwritten;
          unread = w.unread;
          reading = w.reading;
          writing = w.writing;
          committed = w.committed;
        },
        absent refl,
      )
      | inr (e, fails) ↦ inl (
        os e,
        write_unlock id c',
        ground (arith, done),
        record {
          reading = λ k. w.reading k;
          writing = λ k.
              ground (arith, lookup-delete id_discrete c'.writing id k, w.writing k, w.unwritten);
          committed = w.committed;
        },
      )
    ]
  ]

  -- `commit` gives the write lock back. On success the directory becomes the staged one, and on a
  -- failure the committed directories stay as they were.
  pub commit_outcome :
      (id : BuildId) (fails : Option OsError) (c : Cache Tree)
      → (c' : Cache Tree) × WriteFreed id c c'
        × (((tree : Tree) × (commit id fails c ≡ (c', ok tt))
              × (lookup id_discrete c.staged id ≡ some tree)
              × (lookup id_discrete c.committed id ≡ none)
              × Sets id (some tree) c.committed c'.committed)
            ⊎ ((e : Error) × (commit id fails c ≡ (c', err e)) × (c'.committed ≡ c.committed)))
  unfolding commit rename write_unlock
  commit_outcome id (some e) c =
      (write_unlock id c, freed id c (write_unlock id c) refl refl, inr (os e, refl, refl))
  commit_outcome id none c = elim (Option-cases (lookup id_discrete c.staged id)) [
    | inl gone ↦ (
      write_unlock id c,
      freed id c (write_unlock id c) refl refl,
      inr (os 2, ground (arith, gone), refl),
    )
    | inr (tree, staged) ↦ elim (Option-cases (lookup id_discrete c.committed id)) [
      | inr (_, there) ↦ (
        write_unlock id c,
        freed id c (write_unlock id c) refl refl,
        inr (os 17, ground (arith, staged, there), refl),
      )
      | inl absent ↦
          let moved = record c {
            staged = delete id_discrete c.staged id;
            committed = insert id_discrete c.committed id tree;
          } in
          (
            write_unlock id moved,
            freed id c (write_unlock id moved) refl refl,
            inl (
              tree,
              ground (arith, staged, absent),
              staged,
              absent,
              λ k. lookup-insert id_discrete c.committed id k tree,
            ),
          )
    ]
  ]

  pub commit-WriteFreed :
      (id : BuildId) (fails : Option OsError) (c : Cache Tree)
      → WriteFreed id c (commit id fails c).0
  commit-WriteFreed id fails c =
      let (c', w, ends) = commit_outcome id fails c in
      elim ends [
        | inl (tree, e, _, _, _) ↦
            subst (λ (r : Cache Tree × Result Error (Unit {0})). WriteFreed id c r.0) (sym e) w
        | inr (x, e, _) ↦
            subst (λ (r : Cache Tree × Result Error (Unit {0})). WriteFreed id c r.0) (sym e) w
      ]

  pub abort_outcome :
      (id : BuildId) (how : Removal Tree) (c : Cache Tree)
      → WriteFreed id c (abort id how c).0 × ((abort id how c).0.committed ≡ c.committed)
  unfolding abort remove_all write_unlock
  abort_outcome id removed c = (freed id c _ refl refl, refl)
  abort_outcome id (failed e none) c = (freed id c _ refl refl, refl)
  abort_outcome id (failed e (some t)) c = (freed id c _ refl refl, refl)

  -- `Remove` touches no other directory than its own, and gives the write lock back.
  pub end_remove_outcome :
      (id : BuildId) (how : Removal Tree) (c : Cache Tree)
      → WriteFreed id c (end_remove id how c).0
        × ((k : BuildId)
            → id ≢ k
            → lookup id_discrete (end_remove id how c).0.committed k
              ≡ lookup id_discrete c.committed k)
  unfolding end_remove remove_all write_unlock
  end_remove_outcome id removed c =
      (freed id c _ refl refl, λ k ne. lookup-delete_ne id_discrete c.committed id k ne)
  end_remove_outcome id (failed e none) c =
      (freed id c _ refl refl, λ k ne. lookup-delete_ne id_discrete c.committed id k ne)
  end_remove_outcome id (failed e (some t)) c =
      (freed id c _ refl refl, λ k ne. lookup-insert_ne id_discrete c.committed id k t ne)

  -- Where no directory is committed, `Create` does not say that there is one.
  pub create-fresh :
      (id : BuildId) (empty : Tree) (stat mkdir_fails : Option OsError) (c : Cache Tree)
      → lookup id_discrete c.committed id ≡ none
      → (create id empty stat mkdir_fails c).1 ≢ err exists
  unfolding create write_lock make_staged
  create-fresh id empty none none c absent e = absurd (ground arith)
  create-fresh id empty none (some x) c absent e = absurd (ground arith)
  create-fresh id empty (some x) mkdir_fails c absent e = absurd (cc)

  -- After a removal that succeeds there is no directory.
  pub end_remove_gone :
      (id : BuildId) (how : Removal Tree) (c : Cache Tree)
      → (end_remove id how c).1 ≡ ok tt
      → lookup id_discrete (end_remove id how c).0.committed id ≡ none
  unfolding end_remove remove_all write_unlock
  end_remove_gone id removed c e = lookup-delete_self id_discrete c.committed id
  end_remove_gone id (failed x none) c e = absurd (cc)
  end_remove_gone id (failed x (some t)) c e = absurd (cc)

  -- `Create`, work in between, and the release of the lock leave the write locks as they were.
  pub freed_again :
      (id : BuildId) (c a b d : Cache Tree)
      → WriteLocked id c a
      → Agrees a.writing b.writing
      → WriteFreed id b d
      → Agrees c.writing d.writing
  freed_again id c a b d locked same freed k =
      ground (arith, locked.writing k, same k, freed.writing k, locked.unwritten)
