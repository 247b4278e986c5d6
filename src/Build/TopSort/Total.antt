-- ===== src/Build/TopSort/Total.antt =====
-- `TopSort` returns, with every job exactly once.
use mathlib.Core.List.{append-nil, append_assoc, perm_middle}
use mathlib.Core.List.Perm
use distbuild.Common.{
  ℕ, zero, suc, ◌+◌, ◌≤◌, ◌<◌, ◌≡◌, refl, ap, subst, inl, inr, Bool, true, false, Option, some,
  List, [], ◌∷◌, ◌++◌, map, Perm, length, get_elem?, set, replicate, length-set, length-replicate,
  All, get_elem?_lt, ℕ_discrete, Bool-cases, arith,
}
use distbuild.Build.Defs.{Job}
use distbuild.Build.Id.{BuildId}
use distbuild.Build.TopSort.{
  Progress, visit_all, dep_indices, index_of, mark, append_job, visit, range, start, top_sort,
}
use distbuild.Build.TopSort.Index.{index_of-lt}

-- The jobs whose flag is still false.
abbrev pub unvisited : List Job → List Bool → List Job
unvisited [] bs = []
unvisited (j ∷ jobs) [] = j ∷ jobs
unvisited (j ∷ jobs) (false ∷ bs) = j ∷ unvisited jobs bs
unvisited (j ∷ jobs) (true ∷ bs) = unvisited jobs bs

abbrev pub unseen : List Bool → ℕ
unseen [] = 0
unseen (true ∷ flags) = unseen flags
unseen (false ∷ flags) = unseen flags + 1

abbrev pub IsSeen : Progress → ℕ → Type 0
IsSeen p i = get_elem? p.visited i ≡ some true

unseen-set :
    (bs : List Bool) (i : ℕ) → get_elem? bs i ≡ some false → unseen bs ≡ unseen (set bs i true) + 1
unseen-set [] i h = absurd (cc)
unseen-set (b ∷ bs) zero h = ground arith
unseen-set (b ∷ bs) (suc i) h = ground (arith, unseen-set bs i h)

get_elem?-mark :
    (bs : List Bool) (i k : ℕ)
    → get_elem? bs k ≡ some true
    → get_elem? (set bs i true) k ≡ some true
get_elem?-mark [] i k h = h
get_elem?-mark (b ∷ bs) zero zero h = refl
get_elem?-mark (b ∷ bs) zero (suc k) h = h
get_elem?-mark (b ∷ bs) (suc i) zero h = h
get_elem?-mark (b ∷ bs) (suc i) (suc k) h = get_elem?-mark bs i k h

unvisited-set :
    (jobs : List Job) (bs : List Bool) (i : ℕ) {j : Job}
    → get_elem? bs i ≡ some false
    → get_elem? jobs i ≡ some j
    → Perm (j ∷ unvisited jobs (set bs i true)) (unvisited jobs bs)
unvisited-set [] bs i h e = absurd (cc)
unvisited-set (x ∷ jobs) [] i h e = absurd (cc)
unvisited-set (x ∷ jobs) (false ∷ bs) zero {j} h e = let e' : x ≡ j = cc in rw e' (Perm.refl _)
unvisited-set (x ∷ jobs) (true ∷ bs) zero h e = absurd (cc)
unvisited-set (x ∷ jobs) (false ∷ bs) (suc i) {j} h e =
    Perm.trans (Perm.swap x j _) (Perm.cons x (unvisited-set jobs bs i h e))
unvisited-set (x ∷ jobs) (true ∷ bs) (suc i) h e = unvisited-set jobs bs i h e

mark-unseen :
    (i : ℕ) (p : Progress) (fuel : ℕ)
    → get_elem? p.visited i ≡ some false
    → unseen p.visited < suc fuel
    → unseen (mark i p).visited < fuel
unfolding mark
mark-unseen i p fuel fresh u = omega (arith, unseen-set p.visited i fresh)

get_elem?-set_self :
    (bs : List Bool) (i : ℕ) {b : Bool}
    → get_elem? bs i ≡ some b
    → get_elem? (set bs i true) i ≡ some true
get_elem?-set_self [] i h = absurd (cc)
get_elem?-set_self (b ∷ bs) zero h = refl
get_elem?-set_self (b ∷ bs) (suc i) h = get_elem?-set_self bs i h

mark-IsSeen : (i : ℕ) (p : Progress) → get_elem? p.visited i ≡ some false → IsSeen (mark i p) i
unfolding mark
mark-IsSeen i p fresh = get_elem?-set_self p.visited i fresh

-- What a part of the traversal does to the captured variables.
pub record Visits (jobs : List Job) (p q : Progress) : Type 0 where
  pub size : length q.visited ≡ length p.visited
  pub fewer : unseen q.visited ≤ unseen p.visited
  pub keeps : (k : ℕ) → IsSeen p k → IsSeen q k
  pub moves : Perm (q.sorted ++ unvisited jobs q.visited) (p.sorted ++ unvisited jobs p.visited)

Visits-refl : (jobs : List Job) (p : Progress) → Visits jobs p p
Visits-refl jobs p = record {
  size = refl;
  fewer = omega arith;
  keeps = λ k h. h;
  moves = Perm.refl _;
}

Visits-trans :
    (jobs : List Job) {p q r : Progress} → Visits jobs p q → Visits jobs q r → Visits jobs p r
Visits-trans jobs v w = record {
  size = omega (arith, v.size, w.size);
  fewer = omega (arith, v.fewer, w.fewer);
  keeps = λ k h. w.keeps k (v.keeps k h);
  moves = Perm.trans w.moves v.moves;
}

module _ (jobs : List Job) where
  -- A visit that starts with enough fuel ends, with the visited index seen.
  abbrev Ends : (ℕ → Progress → Option Progress) → ℕ → Type 0
  Ends f fuel =
      (i : ℕ) (p : Progress)
      → i < length jobs
      → length p.visited ≡ length jobs
      → unseen p.visited < fuel
      → (q : Progress) × (f i p ≡ some q) × Visits jobs p q × IsSeen q i

  visit_all-Ends :
      (f : ℕ → Progress → Option Progress) (fuel : ℕ)
      → Ends f fuel
      → (is : List ℕ) (p : Progress) → All (λ i. i < length jobs) is
      → length p.visited ≡ length jobs
      → unseen p.visited < fuel
      → (q : Progress) × (visit_all f is p ≡ some q) × Visits jobs p q × All (IsSeen q) is
  unfolding visit_all
  visit_all-Ends f fuel ends [] p h n u = (p, refl, Visits-refl jobs p, tt)
  visit_all-Ends f fuel ends (i ∷ is) p (hi, h) n u =
      let (q, e, v, seen) = ends i p hi n u in
      let (r, e', w, all) =
        visit_all-Ends f fuel ends is q h (omega (arith, v.size)) (omega (arith, v.fewer)) in
      (r, rw e e', Visits-trans jobs v w, (w.keeps i seen, all))

  dep_indices_lt :
      (deps : List BuildId)
      → 0 < length jobs
      → All (λ i. i < length jobs) (map (index_of jobs) deps)
  dep_indices_lt [] h = tt
  dep_indices_lt (d ∷ deps) h = (index_of-lt jobs d h, dep_indices_lt deps h)

  mark-append-Visits :
      (i : ℕ) (j : Job) (p q : Progress)
      → get_elem? p.visited i ≡ some false
      → get_elem? jobs i ≡ some j
      → Visits jobs (mark i p) q
      → Visits jobs p (append_job j q)
  unfolding mark append_job
  mark-append-Visits i j p q unvisited_i job v = record {
    size = omega (arith, v.size, length-set p.visited i true);
    fewer = omega (arith, v.fewer, unseen-set p.visited i unvisited_i);
    keeps = λ k h. v.keeps k (get_elem?-mark p.visited i k h);
    moves = rw (append_assoc q.sorted (j ∷ []) (unvisited jobs q.visited)) (
        Perm.trans (perm_middle q.sorted _) (
          Perm.trans (Perm.cons j v.moves) (
            Perm.trans (Perm.symm (perm_middle p.sorted _))
              (Perm.append_left p.sorted (unvisited-set jobs p.visited i unvisited_i job)))));
  }

  mark-size :
      (i : ℕ) (p : Progress)
      → length p.visited ≡ length jobs
      → length (mark i p).visited ≡ length jobs
  unfolding mark
  mark-size i p n = omega (arith, length-set p.visited i true)

  visit-Ends : (fuel : ℕ) → Ends (visit jobs fuel) fuel
  unfolding visit append_job
  visit-Ends zero i p hi n u = absurd (omega arith)
  visit-Ends (suc fuel) i p hi n u =
      let (b, flag) = get_elem?_lt p.visited i (omega arith) in
      elim (Bool-cases b) [
        | inl seen ↦ (p, rw (flag, seen), Visits-refl jobs p, rw (flag, seen))
        | inr fresh ↦
            let unset : get_elem? p.visited i ≡ some false = rw (flag, fresh) in
            let (j, job) = get_elem?_lt jobs i hi in
            let (q, e, v, _) =
              visit_all-Ends (visit jobs fuel) fuel (visit-Ends fuel) (dep_indices jobs j)
                (mark i p) (dep_indices_lt j.deps (omega arith)) (mark-size i p n)
                (mark-unseen i p fuel unset u) in
            (
              append_job j q,
              rw (unset, job, e),
              mark-append-Visits i j p q unset job v,
              v.keeps i (mark-IsSeen i p unset),
            )
      ]

unvisited-none : (jobs : List Job) → unvisited jobs (replicate (length jobs) false) ≡ jobs
unvisited-none [] = refl
unvisited-none (j ∷ jobs) = ap (◌∷◌ j) (unvisited-none jobs)

unseen-replicate : (n : ℕ) → unseen (replicate n false) ≡ n
unseen-replicate zero = refl
unseen-replicate (suc n) = omega (arith, unseen-replicate n)

-- Where every flag is set, no job is left.
unvisited-all :
    (jobs : List Job) (bs : List Bool)
    → ((k : ℕ) → k < length jobs → get_elem? bs k ≡ some true)
    → unvisited jobs bs ≡ []
unvisited-all [] bs h = refl
unvisited-all (j ∷ jobs) [] h = absurd (cc (h 0 (omega arith)))
unvisited-all (j ∷ jobs) (false ∷ bs) h = absurd (cc (h 0 (omega arith)))
unvisited-all (j ∷ jobs) (true ∷ bs) h = unvisited-all jobs bs (λ k lt. h (suc k) (omega arith))

pub range-lt : (i n m : ℕ) → i + n ≤ m → All (λ k. k < m) (range i n)
range-lt i zero m h = tt
range-lt i (suc n) m h = (omega arith, range-lt (suc i) n m (omega arith))

All-range {ℓ} : (P : ℕ → Type ℓ) (i n : ℕ) → All P (range i n) → (k : ℕ) → i ≤ k → k < i + n → P k
All-range P i zero all k lo hi = absurd (omega arith)
All-range P i (suc n) all k lo hi = elim (ℕ_discrete i k) [
  | yes e ↦ subst P e all.0
  | no e ↦ All-range P (suc i) n all.1 k (omega arith) (omega arith)
]

pub top_sort_runs :
    (jobs : List Job)
    → (q : Progress) × (visit_all
          (visit jobs (suc (length jobs)))
          (range 0 (length jobs))
          (start jobs)
        ≡ some q)
      × Visits jobs (start jobs) q
      × All (IsSeen q) (range 0 (length jobs))
top_sort_runs jobs =
    visit_all-Ends jobs (visit jobs (suc (length jobs))) (suc (length jobs))
      (visit-Ends jobs (suc (length jobs))) (range 0 (length jobs)) (start jobs)
      (range-lt 0 (length jobs) (length jobs) (omega arith)) (length-replicate (length jobs) false)
      (omega (arith, unseen-replicate (length jobs)))

-- For every list of jobs, also with cycles, unknown dependencies or repeated identifiers, the sort
-- returns, and its result has every job of the list as often as the list has it.
pub top_sort-perm :
    (jobs : List Job) → (out : List Job) × (top_sort jobs ≡ some out) × Perm out jobs
unfolding top_sort
top_sort-perm jobs =
    let (q, e, v, seen) = top_sort_runs jobs in
    let left =
      unvisited-all jobs q.visited
        (λ k lt. All-range (IsSeen q) 0 (length jobs) seen k (omega arith) (omega arith)) in
    let all_moved =
      subst (λ l. Perm (q.sorted ++ l) (unvisited jobs (replicate (length jobs) false))) left
        v.moves in
    let moved = subst (Perm (q.sorted ++ [])) (unvisited-none jobs) all_moved in
    (q.sorted, rw e, subst (λ l. Perm l jobs) (append-nil q.sorted) moved)
