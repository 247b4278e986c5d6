-- ===== src/Artifact/Holders/Counted.antt =====
-- How taking and giving back a lock of pkg/artifact/cache.go changes who holds it.
use distbuild.Common.{
  ℕ, zero, suc, ◌+◌, ◌≤◌, ◌<◌, ◌≡◌, ◌∙◌, refl, sym, ap, true, false, none, ◌∷◌, lookup, pos, arith,
}
use distbuild.Build.{BuildId, id_discrete}
use distbuild.Artifact.{Cache, or_zero, is_positive, readers}
use distbuild.Artifact.Locks.{
  tally, flag, flag-none, or_zero-tally, Sets, Agrees, ReadLocked, WriteLocked, WriteFreed,
}
use distbuild.Artifact.Holders.{System, count, drop_one, holds, count-drop_one}

module _ {Tree : Type 0} where
  -- The locks on one artifact say who holds them.
  pub record Fits (s : System Tree) (id : BuildId) : Type 0 where
    pub reads : lookup id_discrete s.cache.reading id ≡ tally (count id s.readers)
    pub writes :
        lookup id_discrete s.cache.writing id ≡ flag (count id s.writers + count id s.removers)
    pub one : count id s.writers + count id s.removers ≤ 1
    pub apart : 0 < count id s.readers → count id s.writers + count id s.removers ≡ 0

  -- The locks alone changed, and only where they agree.
  pub same-Fits :
      (s : System Tree) (c : Cache Tree) (k : BuildId)
      → Agrees s.cache.reading c.reading
      → Agrees s.cache.writing c.writing
      → Fits s k
      → Fits (record s { cache = c }) k
  same-Fits s c k r w f = record {
    reads = r k ∙ f.reads;
    writes = w k ∙ f.writes;
    one = f.one;
    apart = f.apart;
  }

  unwritten-count :
      (s : System Tree) (id : BuildId)
      → Fits s id
      → lookup id_discrete s.cache.writing id ≡ none
      → count id s.writers + count id s.removers ≡ 0
  unwritten-count s id f e = flag-none _ (sym f.writes ∙ e)

  unread-count :
      (s : System Tree) (id : BuildId)
      → Fits s id
      → is_positive (readers s.cache id) ≡ false
      → count id s.readers ≡ 0
  unread-count s id f e =
      not_positive (count id s.readers)
        (ap is_positive (sym (ap or_zero f.reads ∙ or_zero-tally _)) ∙ e)
    where
      not_positive : (n : ℕ) → is_positive (pos n) ≡ false → n ≡ 0
      not_positive zero e = refl
      not_positive (suc n) e = absurd (cc)

  pub reader-Fits :
      (id : BuildId) (s : System Tree) (c : Cache Tree) (k : BuildId)
      → ReadLocked id (count id s.readers) s.cache c
      → Fits s id
      → Fits s k
      → Fits (record s { cache = c; readers = id ∷ s.readers }) k
  reader-Fits id s c k l f g =
      ground (arith, l.reading k, l.writing k, unwritten-count s id f l.unwritten)

  pub writer-Fits :
      (id : BuildId) (s : System Tree) (c : Cache Tree) (k : BuildId)
      → WriteLocked id s.cache c
      → Fits s id
      → Fits s k
      → Fits (record s { cache = c; writers = id ∷ s.writers }) k
  writer-Fits id s c k l f g = ground (
    arith,
    l.reading k,
    l.writing k,
    unwritten-count s id f l.unwritten,
    unread-count s id f l.unread,
  )

  pub remover-Fits :
      (id : BuildId) (s : System Tree) (c : Cache Tree) (k : BuildId)
      → WriteLocked id s.cache c
      → Fits s id
      → Fits s k
      → Fits (record s { cache = c; removers = id ∷ s.removers }) k
  remover-Fits id s c k l f g = ground (
    arith,
    l.reading k,
    l.writing k,
    unwritten-count s id f l.unwritten,
    unread-count s id f l.unread,
  )

  pub written-Fits :
      (id : BuildId) (s : System Tree) (c : Cache Tree) (k : BuildId)
      → WriteFreed id s.cache c
      → holds id s.writers ≡ true
      → Fits s id
      → Fits s k
      → Fits (record s { cache = c; writers = drop_one id s.writers }) k
  written-Fits id s c k l h f g =
      ground (arith, l.reading k, l.writing k, count-drop_one id k s.writers)

  pub cleared-Fits :
      (id : BuildId) (s : System Tree) (c : Cache Tree) (k : BuildId)
      → WriteFreed id s.cache c
      → holds id s.removers ≡ true
      → Fits s id
      → Fits s k
      → Fits (record s { cache = c; removers = drop_one id s.removers }) k
  cleared-Fits id s c k l h f g =
      ground (arith, l.reading k, l.writing k, count-drop_one id k s.removers)

  pub unlocked-Fits :
      (id : BuildId) (s : System Tree) (c : Cache Tree) (k : BuildId) (m : ℕ)
      → count id s.readers ≡ suc m
      → Sets id (tally m) s.cache.reading c.reading
      → Agrees s.cache.writing c.writing
      → Fits s id
      → Fits s k
      → Fits (record s { cache = c; readers = drop_one id s.readers }) k
  unlocked-Fits id s c k m n r w f g = ground (arith, r k, w k, count-drop_one id k s.readers)
