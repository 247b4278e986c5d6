-- ===== src/Build/TopSort/Tests.antt =====
-- Runs of pkg/build/top_sort.go at concrete inputs.
use mathlib.Core.List.Memᴰ
use distbuild.Common.{ℕ, ◌≡◌, refl, List, [], ◌∷◌, map, Perm, some, arith, insert, lookup}
use distbuild.Build.Id.{BuildId, id_discrete}
use distbuild.Build.Id.Tests.{id_of}
use distbuild.Build.Defs.{Job}
use distbuild.Build.TopSort.{
  top_sort, visit, visit_all, mark, append_job, index_of, zero_or, job_id_index, index_from,
}
use distbuild.Build.TopSort.Total.{top_sort-perm}
use distbuild.Build.TopSort.Order.{top_sort-DepsFirst}
use distbuild.Build.TopSort.Visits.{IsAcyclic, DepsFirst}

abbrev pub job_of : ℕ → List ℕ → Job
job_of b deps = record { id = id_of b; name = []; inputs = []; deps = map id_of deps; cmds = [] }

-- The chain of top_sort_test.go: job 3 needs job 2, which needs job 1.
abbrev pub chain : List Job
chain = job_of 3 (2 ∷ []) ∷ job_of 2 (1 ∷ []) ∷ job_of 1 [] ∷ []

abbrev pub sorted_chain : List Job
sorted_chain = job_of 1 [] ∷ job_of 2 (1 ∷ []) ∷ job_of 3 (2 ∷ []) ∷ []

pub chain_sorted : top_sort chain ≡ some sorted_chain
unfolding top_sort visit visit_all mark append_job index_of zero_or job_id_index index_from
    id_discrete insert lookup
chain_sorted = refl

pub lone_sorted : top_sort (job_of 1 [] ∷ []) ≡ some (job_of 1 [] ∷ [])
unfolding top_sort visit visit_all mark append_job index_of zero_or job_id_index index_from
    id_discrete insert lookup
lone_sorted = refl

top_sort-perm_example : (out : List Job) × (top_sort chain ≡ some out) × Perm out chain
top_sort-perm_example = top_sort-perm chain

-- The first byte is a rank.
abbrev pub first : BuildId → ℕ
first [] = 0
first (b ∷ _) = b

pub chain-IsAcyclic : IsAcyclic first chain
chain-IsAcyclic = record {
  present =
      ((Memᴰ.tail (Memᴰ.head refl), tt), ((Memᴰ.tail (Memᴰ.tail (Memᴰ.head refl)), tt), (tt, tt)));
  falls = omega arith;
}

top_sort-DepsFirst_example : DepsFirst [] sorted_chain
top_sort-DepsFirst_example =
    top_sort-DepsFirst first chain sorted_chain chain-IsAcyclic chain_sorted
