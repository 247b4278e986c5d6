-- ===== src/Build/TopSort/Index.antt =====
-- The index of job identifiers that pkg/build/top_sort.go builds first.
use distbuild.Common.{
  ℕ, suc, ◌+◌, ◌<◌, ◌≡◌, refl, ◌⊎◌, inl, inr, some, List, [], ◌∷◌, map, Memᴰ, length, get_elem?,
  lt_of_get_elem?, Dict, lookup, insert, lookup-insert, Option-cases, arith,
}
use distbuild.Build.Id.{BuildId, id_discrete}
use distbuild.Build.Defs.{Job}
use distbuild.Build.TopSort.{index_from, job_id_index, zero_or, index_of}

abbrev pub ids : List Job → List BuildId
ids jobs = map (λ (j : Job). j.id) jobs

-- Every entry of the index points at a job with the entry's identifier: from `i` on into `jobs`, and
-- otherwise into what was there before.
index_from_sound :
    (i : ℕ) (jobs : List Job) (index : Dict BuildId ℕ) (d : BuildId) (k : ℕ)
    → lookup id_discrete (index_from i jobs index) d ≡ some k
    → (lookup id_discrete index d ≡ some k)
      ⊎ ((n : ℕ) × (j : Job) × (k ≡ n + i) × (get_elem? jobs n ≡ some j) × (j.id ≡ d))
unfolding index_from
index_from_sound i [] index d k h = inl h
index_from_sound i (j ∷ jobs) index d k h =
    elim (index_from_sound (suc i) jobs (insert id_discrete index j.id i) d k h) [
      | inl old ↦ elim (id_discrete j.id d) [
        | yes e ↦ inr (0, j, ground (arith, lookup-insert id_discrete index j.id d i), refl, e)
        | no e ↦ inl (ground (arith, lookup-insert id_discrete index j.id d i))
      ]
      | inr (n, j', ek, ej, ed) ↦ inr (suc n, j', omega arith, ej, ed)
    ]

index_from_keeps :
    (i : ℕ) (jobs : List Job) (index : Dict BuildId ℕ) (d : BuildId) {k : ℕ}
    → lookup id_discrete index d ≡ some k
    → (k' : ℕ) × (lookup id_discrete (index_from i jobs index) d ≡ some k')
unfolding index_from
index_from_keeps i [] index d {k} h = (k, h)
index_from_keeps i (j ∷ jobs) index d {k} h = elim (id_discrete j.id d) [
  | yes e ↦
      index_from_keeps (suc i) jobs (insert id_discrete index j.id i) d {k = i}
        (ground (arith, lookup-insert id_discrete index j.id d i))
  | no e ↦
      index_from_keeps (suc i) jobs (insert id_discrete index j.id i) d {k = k}
        (ground (arith, lookup-insert id_discrete index j.id d i))
]

index_from_total :
    (i : ℕ) (jobs : List Job) (index : Dict BuildId ℕ) (d : BuildId)
    → Memᴰ d (ids jobs)
    → (k : ℕ) × (lookup id_discrete (index_from i jobs index) d ≡ some k)
unfolding index_from
index_from_total i [] index d m = elim m [ ]
index_from_total i (j ∷ jobs) index d (Memᴰ.head e) =
    index_from_keeps (suc i) jobs (insert id_discrete index j.id i) d {k = i}
      (ground (arith, lookup-insert id_discrete index j.id d i))
index_from_total i (j ∷ jobs) index d (Memᴰ.tail m) =
    index_from_total (suc i) jobs (insert id_discrete index j.id i) d m

-- What the index holds for `d` is the position of a job with that identifier.
job_id_index_sound :
    (jobs : List Job) (d : BuildId) (k : ℕ)
    → lookup id_discrete (job_id_index jobs) d ≡ some k
    → (j : Job) × (get_elem? jobs k ≡ some j) × (j.id ≡ d)
unfolding job_id_index lookup
job_id_index_sound jobs d k h = elim (index_from_sound 0 jobs [] d k h) [
  | inl e ↦ absurd (cc)
  | inr (n, j, ek, ej, ed) ↦ (j, rw (let e : k ≡ n = omega arith in e) ej, ed)
]

-- The index of a dependency is an index of `jobs`.
pub index_of-lt : (jobs : List Job) (d : BuildId) → 0 < length jobs → index_of jobs d < length jobs
unfolding index_of zero_or
index_of-lt jobs d h = elim (Option-cases (lookup id_discrete (job_id_index jobs) d)) [
  | inl e ↦ rw (e, zero_or) h
  | inr (k, e) ↦
      let (j, ej, _) = job_id_index_sound jobs d k e in rw (e, zero_or) (lt_of_get_elem? jobs k ej)
]

-- The index of a dependency that is in the graph is the index of a job with that identifier.
pub index_of_sound :
    (jobs : List Job) (d : BuildId)
    → Memᴰ d (ids jobs)
    → (j : Job) × (get_elem? jobs (index_of jobs d) ≡ some j) × (j.id ≡ d)
unfolding index_of zero_or job_id_index
index_of_sound jobs d m =
    let (k, e) = index_from_total 0 jobs [] d m in rw (e, zero_or) (job_id_index_sound jobs d k e)
