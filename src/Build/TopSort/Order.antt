-- ===== src/Build/TopSort/Order.antt =====
-- `TopSort` puts every job behind its dependencies, where the graph has no cycle.
use distbuild.Common.{
  ℕ, zero, suc, ◌≡◌, ◌≢◌, subst, true, false, some, List, [], length, get_elem?, replicate, arith,
}
use distbuild.Build.Defs.{Job}
use distbuild.Build.Id.{BuildId}
use distbuild.Build.TopSort.{visit_all, visit, range, start, top_sort}
use distbuild.Build.TopSort.Total.{range-lt}
use distbuild.Build.TopSort.Visits.{>>=-eq-some, DepsFirst, IsAcyclic, IsOpen, top-Sorts}

none_seen : (n k : ℕ) → get_elem? (replicate n false) k ≢ some true
none_seen zero k h = cc
none_seen (suc n) zero h = cc
none_seen (suc n) (suc k) h = none_seen n k h

-- Where the dependencies are in the graph and form no cycle, a sort that returns lists every job
-- behind all its dependencies.
pub top_sort-DepsFirst :
    (rank : BuildId → ℕ) (jobs out : List Job)
    → IsAcyclic rank jobs
    → top_sort jobs ≡ some out
    → DepsFirst [] out
unfolding top_sort
top_sort-DepsFirst rank jobs out acyclic e =
    let (q, er, last) =
      >>=-eq-some (visit_all (visit jobs (suc (length jobs))) (range 0 (length jobs)) (start jobs))
        (λ p. some p.sorted) e in
    let same : q.sorted ≡ out = cc in
    subst (DepsFirst []) same (
      top-Sorts rank jobs acyclic (suc (length jobs)) (range 0 (length jobs)) (start jobs) q
        (range-lt 0 (length jobs) (length jobs) (omega arith)) fresh er)
  where
    fresh : (bound : ℕ) → IsOpen rank jobs acyclic bound (start jobs)
    fresh bound = record { first = tt; seen = λ k j e h. absurd (none_seen (length jobs) k h) }
