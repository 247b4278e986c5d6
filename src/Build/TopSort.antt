-- ===== src/Build/TopSort.antt =====
-- pkg/build/top_sort.go. The indices of Go slices are checked, so a bad one would be a panic.
pub mod Index
pub mod Total
pub mod Order
pub mod Visits
pub mod Tests
use distbuild.Common.{
  ℕ, zero, suc, ◌+◌, ◌<◌, ◌≡◌, refl, Bool, true, false, Option, none, some, List, [], ◌∷◌, ◌++◌,
  map, length, get_elem?, set, replicate, Dict, lookup, insert, if◌then◌else◌,
}
use distbuild.Build.Id.{BuildId, id_discrete}
use distbuild.Build.Defs.{Job}

-- The variables that `visit` captures.
pub record Progress : Type 0 where
  pub visited : List Bool
  pub sorted : List Job

infixl 5 ◌>>=◌
abbrev ◌>>=◌ : {A B : Type 0} → Option A → (A → Option B) → Option B
none >>= f = none
some a >>= f = f a

-- `for i, j := range jobs { jobIDIndex[j.ID] = i }`, from index `i` on.
index_from : ℕ → List Job → Dict BuildId ℕ → Dict BuildId ℕ
index_from i [] index = index
index_from i (j ∷ jobs) index = index_from (suc i) jobs (insert id_discrete index j.id i)

pub job_id_index : List Job → Dict BuildId ℕ
job_id_index jobs = index_from 0 jobs []

-- A read of a missing key gives the zero value.
zero_or : Option ℕ → ℕ
zero_or none = 0
zero_or (some i) = i

pub index_of : List Job → BuildId → ℕ
index_of jobs dep = zero_or (lookup id_discrete (job_id_index jobs) dep)

-- `for ... { visit(...) }` over given indices; `none` is a panic or the end of the fuel.
pub visit_all : (ℕ → Progress → Option Progress) → List ℕ → Progress → Option Progress
visit_all visit [] p = some p
visit_all visit (i ∷ is) p = visit i p >>= visit_all visit is

abbrev pub dep_indices : List Job → Job → List ℕ
dep_indices jobs j = map (index_of jobs) j.deps

pub mark : ℕ → Progress → Progress
mark i p = record p { visited = set p.visited i true }

pub append_job : Job → Progress → Progress
append_job j p = record p { sorted = p.sorted ++ j ∷ [] }

-- `visited[jobIndex]` and `jobs[jobIndex]` panic out of range.
pub visit : List Job → ℕ → ℕ → Progress → Option Progress
visit jobs zero i p = none
visit jobs (suc fuel) i p = get_elem? p.visited i >>= λ seen.
    let body = get_elem? jobs i >>= λ j.
    visit_all (visit jobs fuel) (dep_indices jobs j) (mark i p) >>= λ q. some (append_job j q) in
    if seen then some p else body

abbrev pub range : ℕ → ℕ → List ℕ
range i zero = []
range i (suc n) = i ∷ range (suc i) n

abbrev pub start : List Job → Progress
start jobs = record { visited = replicate (length jobs) false; sorted = [] }

pub top_sort : List Job → Option (List Job)
top_sort jobs =
    visit_all (visit jobs (suc (length jobs))) (range 0 (length jobs)) (start jobs) >>= λ p.
    some p.sorted
