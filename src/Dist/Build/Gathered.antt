-- ===== src/Dist/Build/Gathered.antt =====
-- How the loop over the dependencies of a job ends, in pkg/dist/build_service.go.
use distbuild.Common.{
  ℕ, suc, ◌≡◌, refl, sym, subst, some, List, [], ◌∷◌, ◌++◌, Dict, lookup, insert, Result, ok, err,
  Outcome, returns, panics, blocks, inl, inr, ◌⊎◌, Memᴰ, arith,
}
use distbuild.Build.{BuildId, id_discrete}
use distbuild.Api.{WorkerId}
use distbuild.Scheduler.{Ref, Scheduler}
use distbuild.Scheduler.Results.{Settled-refl}
use distbuild.Scheduler.Prompt.{Whole, Prompt, Whole-suffix}
use distbuild.Dist.Build.{Moment, wait_for, gather}
use distbuild.Dist.Build.Ready.{Sound, Later, Later-trans}
use distbuild.Dist.Build.Waits.{Linked, keep_link, wait_for-cases, located-cases}

-- How a part of the loop may end: not by a panic, and where it goes on, in a scheduler in order.
unfoldable pub Calm :
    {A : Type 0} → Scheduler → Outcome (Result (Unit {0}) (A × Scheduler)) → Type 0
Calm s panics = ⊥
Calm s blocks = Unit {0}
Calm s (returns (err _)) = Unit {0}
Calm s (returns (ok (_, t))) = Later s t × Prompt t

Calm-Later :
    {A : Type 0} (s t : Scheduler) (o : Outcome (Result (Unit {0}) (A × Scheduler)))
    → Later s t
    → Calm t o
    → Calm s o
unfolding Calm
Calm-Later s t panics l h = h
Calm-Later s t blocks l h = h
Calm-Later s t (returns (err _)) l h = h
Calm-Later s t (returns (ok (_, u))) l (l', prompt) = (Later-trans s t u l l', prompt)

gather-waits :
    (at : ℕ → Moment) (k : ℕ) (job_pending : Dict BuildId Ref) (dep : BuildId) (deps : List BuildId)
    (artifacts : Dict BuildId WorkerId) (s : Scheduler) (ref : Ref)
    → lookup id_discrete job_pending dep ≡ some ref
    → (wait_for (at k) ref s ≡ blocks) ⊎ (wait_for (at k) ref s ≡ returns (err tt))
    → Calm s (gather at k job_pending (dep ∷ deps) artifacts s)
unfolding gather Calm
gather-waits at k job_pending dep deps artifacts s ref entry (inl p) =
    let e : gather at k job_pending (dep ∷ deps) artifacts s ≡ blocks = ground (arith, entry, p) in
    subst (Calm s) (sym e) tt
gather-waits at k job_pending dep deps artifacts s ref entry (inr p) =
    let e : gather at k job_pending (dep ∷ deps) artifacts s ≡ returns (err tt) =
      ground (arith, entry, p) in
    subst (Calm s) (sym e) tt

pub gather-Calm :
    (at : ℕ → Moment) (k : ℕ) (job_pending : Dict BuildId Ref) (deps : List BuildId)
    (artifacts : Dict BuildId WorkerId) (s : Scheduler)
    → Sound s
    → Prompt s
    → ((k : ℕ) → Whole ((at k).others ++ (at k).between))
    → ((d : BuildId) → Memᴰ d deps → Linked job_pending s d)
    → Calm s (gather at k job_pending deps artifacts s)
unfolding gather Calm
gather-Calm at k job_pending [] artifacts s sound prompt whole links =
    ((sound, Settled-refl s s refl), prompt)
gather-Calm at k job_pending (dep ∷ deps) artifacts s sound prompt whole links =
    let l = links dep (Memᴰ.head refl) in
    elim (wait_for-cases (at k) l.ref s sound prompt (whole k)) [
      | inl p ↦ gather-waits at k job_pending dep deps artifacts s l.ref l.entry (inl p)
      | inr (inl p) ↦ gather-waits at k job_pending dep deps artifacts s l.ref l.entry (inr p)
      | inr (inr (t, p, woken)) ↦
          let (later, done, still) = woken in
          let l' = keep_link job_pending s t dep later.1 l in
          elim (located-cases (at k) dep job_pending t later.0 still
            (Whole-suffix (at k).others (at k).between (whole k)) l' done) [
              | inl q ↦
                  let e : gather at k job_pending (dep ∷ deps) artifacts s ≡ blocks =
                    ground (arith, l.entry, p, q) in
                  subst (Calm s) (sym e) tt
              | inr (w, u, q, later', prompt') ↦
                  let past = Later-trans s t u later later' in
                  let rest =
                    gather at (suc k) job_pending deps (insert id_discrete artifacts dep w) u in
                  let e : gather at k job_pending (dep ∷ deps) artifacts s ≡ rest =
                    ground (arith, l.entry, p, q) in
                  subst (Calm s) (sym e) (
                    Calm-Later s u rest past (
                      gather-Calm at (suc k) job_pending deps (insert id_discrete artifacts dep w) u
                        past.0 prompt' whole
                        (λ d m. keep_link job_pending s u d past.1 (links d (Memᴰ.tail m)))))
            ]
    ]
