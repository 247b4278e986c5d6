-- ===== src/Build/TopSort/Visits.antt =====
-- The visits of pkg/build/top_sort.go put a job behind its dependencies.
use mathlib.Core.List.Memᴰ
use mathlib.Core.List.{map-append}
use distbuild.Common.{
  ℕ, zero, suc, ◌≤◌, ◌<◌, ◌≡◌, ◌≢◌, ◌∙◌, refl, sym, ap, subst, ◌⊎◌, inl, inr, Bool, true, Option,
  none, some, List, [], ◌∷◌, ◌++◌, map, Memᴰ, length, get_elem?, get_elem?_lt, set, All, All-get,
  Bool-cases, Option-cases, ℕ_discrete, arith,
}
use distbuild.Build.Defs.{Job}
use distbuild.Build.Id.{BuildId}
use distbuild.Build.TopSort.{
  Progress, ◌>>=◌, visit_all, dep_indices, index_of, mark, append_job, visit,
}
use distbuild.Build.TopSort.Index.{ids, index_of_sound}
use distbuild.Build.TopSort.Total.{IsSeen}

-- Each job of the list comes behind its dependencies, those in `before` being there already.
abbrev pub DepsFirst : List BuildId → List Job → Type 0
DepsFirst before [] = Unit {0}
DepsFirst before (j ∷ jobs) =
    ((d : BuildId) → Memᴰ d j.deps → Memᴰ d before) × DepsFirst (j.id ∷ before) jobs

-- No cycle: some rank falls along every dependency, and the dependencies are in the graph.
pub record IsAcyclic (rank : BuildId → ℕ) (jobs : List Job) : Type 0 where
  pub present : All (λ j. All (λ d. Memᴰ d (ids jobs)) j.deps) jobs
  pub falls : All (λ j. All (λ d. rank d < rank j.id) j.deps) jobs

DepsFirst-snoc :
    (before : List BuildId) (jobs : List Job) (j : Job)
    → DepsFirst before jobs
    → ((d : BuildId) → Memᴰ d j.deps → Memᴰ d before ⊎ Memᴰ d (ids jobs))
    → DepsFirst before (jobs ++ j ∷ [])
DepsFirst-snoc before [] j first h = (λ d m. elim (h d m) [ inl b ↦ b | inr n ↦ elim n [ ] ], tt)
DepsFirst-snoc before (x ∷ jobs) j first h =
    (first.0, DepsFirst-snoc (x.id ∷ before) jobs j first.1 (λ d m. shift d (h d m)))
  where
    shift :
        (d : BuildId)
        → Memᴰ d before ⊎ Memᴰ d (x.id ∷ ids jobs)
        → Memᴰ d (x.id ∷ before) ⊎ Memᴰ d (ids jobs)
    shift d (inl b) = inl (Memᴰ.tail b)
    shift d (inr (Memᴰ.head e)) = inl (Memᴰ.head e)
    shift d (inr (Memᴰ.tail m)) = inr m

pub >>=-eq-some :
    {A B : Type 0} (m : Option A) (f : A → Option B) {b : B}
    → (m >>= f) ≡ some b
    → (a : A) × (m ≡ some a) × (f a ≡ some b)
>>=-eq-some none f h = absurd (cc)
>>=-eq-some (some a) f h = (a, refl, h)

get_elem?-mark_ne :
    (bs : List Bool) (i k : ℕ)
    → i ≢ k
    → get_elem? (set bs i true) k ≡ some true
    → get_elem? bs k ≡ some true
get_elem?-mark_ne [] i k ne h = h
get_elem?-mark_ne (b ∷ bs) zero zero ne h = absurd (ne refl)
get_elem?-mark_ne (b ∷ bs) zero (suc k) ne h = h
get_elem?-mark_ne (b ∷ bs) (suc i) zero ne h = h
get_elem?-mark_ne (b ∷ bs) (suc i) (suc k) ne h = get_elem?-mark_ne bs i k (λ e. ne (ap suc e)) h

same_job :
    (jobs : List Job) (i k : ℕ) {j j' : Job}
    → get_elem? jobs i ≡ some j
    → get_elem? jobs k ≡ some j'
    → i ≡ k
    → j ≡ j'
same_job jobs i k h h' e = cc

abbrev Done : Progress → BuildId → Type 0
Done p d = Memᴰ d (ids p.sorted)

module _ (rank : BuildId → ℕ) (jobs : List Job) (acyclic : IsAcyclic rank jobs) where
  -- A seen job is either sorted or still being visited, and then of rank `bound` or more.
  pub record IsOpen (bound : ℕ) (p : Progress) : Type 0 where
    pub first : DepsFirst [] p.sorted
    pub seen :
        (k : ℕ) (j : Job)
        → get_elem? jobs k ≡ some j
        → IsSeen p k
        → Done p j.id ⊎ (bound ≤ rank j.id)

  record Sorts (p q : Progress) : Type 0 where
    first : DepsFirst [] q.sorted
    grows : (d : BuildId) → Done p d → Done q d
    fresh : (k : ℕ) (j : Job) → get_elem? jobs k ≡ some j → IsSeen q k → IsSeen p k ⊎ Done q j.id

  IsOpen-Sorts : (bound : ℕ) {p q : Progress} → IsOpen bound p → Sorts p q → IsOpen bound q
  IsOpen-Sorts bound o s = record {
    first = s.first;
    seen = λ k j e h. elim (s.fresh k j e h) [
      | inr d ↦ inl d
      | inl before ↦ elim (o.seen k j e before) [ inl d ↦ inl (s.grows _ d) | inr le ↦ inr le ]
    ];
  }

  Sorts-refl : {p : Progress} → DepsFirst [] p.sorted → Sorts p p
  Sorts-refl f = record { first = f; grows = λ d m. m; fresh = λ k j e h. inl h }

  Sorts-trans : {p q r : Progress} → Sorts p q → Sorts q r → Sorts p r
  Sorts-trans s t = record {
    first = t.first;
    grows = λ d m. t.grows d (s.grows d m);
    fresh = λ k j e h. elim (t.fresh k j e h) [
      | inr d ↦ inr d
      | inl before ↦ elim (s.fresh k j e before) [ inl b ↦ inl b | inr d ↦ inr (t.grows _ d) ]
    ];
  }

  -- `f` visits a job of rank below `bound`, and sorts it.
  abbrev Good : (ℕ → Progress → Option Progress) → Type 0
  Good f =
      (bound i : ℕ) (j : Job) (p q : Progress)
      → get_elem? jobs i ≡ some j
      → rank j.id < bound
      → IsOpen bound p
      → f i p ≡ some q
      → Sorts p q × Done q j.id

  visit_deps-Sorts :
      (f : ℕ → Progress → Option Progress)
      → Good f
      → (bound : ℕ) (deps : List BuildId) (p q : Progress) → All (λ d. Memᴰ d (ids jobs)) deps
      → All (λ d. rank d < bound) deps
      → IsOpen bound p
      → visit_all f (map (index_of jobs) deps) p ≡ some q
      → Sorts p q × ((d : BuildId) → Memᴰ d deps → Done q d)
  unfolding visit_all
  visit_deps-Sorts f good bound [] p q here falls o e =
      let same : p ≡ q = cc in
      subst (λ r. Sorts p r × ((d : BuildId) → Memᴰ d [] → Done r d)) same
        (Sorts-refl o.first, λ d m. elim m [ ])
  visit_deps-Sorts f good bound (d ∷ deps) p q (hd, here) (fd, falls) o e =
      let (j, job, same) = index_of_sound jobs d hd in
      let (r, er, rest) =
        >>=-eq-some (f (index_of jobs d) p) (visit_all f (map (index_of jobs) deps)) e in
      let (s, done) = good bound (index_of jobs d) j p r job (rw same fd) o er in
      let (t, all) =
        visit_deps-Sorts f good bound deps r q here falls (IsOpen-Sorts bound o s) rest in
      (
        Sorts-trans s t,
        λ d' m. elim (Memᴰ.cases_cons m) [
          | inl e' ↦ t.grows d' (subst (Done r) (same ∙ sym e') done)
          | inr m' ↦ all d' m'
        ],
      )

  mark-IsOpen :
      (bound i : ℕ) (j : Job) (p : Progress)
      → get_elem? jobs i ≡ some j
      → rank j.id < bound
      → IsOpen bound p
      → IsOpen (rank j.id) (mark i p)
  unfolding mark
  mark-IsOpen bound i j p job lt o = record {
    first = o.first;
    seen = λ k j' e h. elim (ℕ_discrete i k) [
      | yes same ↦ inr (
          let e' : j ≡ j' = same_job jobs i k job e same in
          omega (arith, ap (λ (j : Job). rank j.id) e'))
      | no other ↦ elim (o.seen k j' e (get_elem?-mark_ne p.visited i k other h)) [
        | inl d ↦ inl d
        | inr le ↦ inr (omega arith)
      ]
    ];
  }

  append-Sorts :
      (bound i : ℕ) (j : Job) (p q : Progress)
      → get_elem? jobs i ≡ some j
      → IsOpen bound p
      → Sorts (mark i p) q
      → ((d : BuildId) → Memᴰ d j.deps → Done q d)
      → Sorts p (append_job j q) × Done (append_job j q) j.id
  unfolding mark append_job
  append-Sorts bound i j p q job o s deps = (
    record {
      first = DepsFirst-snoc [] q.sorted j s.first (λ d m. inr (deps d m));
      grows = λ d m. kept d (s.grows d m);
      fresh = λ k j' e h. elim (s.fresh k j' e h) [
        | inr d ↦ inr (kept _ d)
        | inl marked ↦ elim (ℕ_discrete i k) [
          | yes same ↦ inr (
              subst (λ (x : Job). Memᴰ x.id (ids (q.sorted ++ j ∷ [])))
                (same_job jobs i k job e same) last)
          | no other ↦ inl (get_elem?-mark_ne p.visited i k other marked)
        ]
      ];
    },
    last,
  )
    where
      kept : (d : BuildId) → Done q d → Memᴰ d (ids (q.sorted ++ j ∷ []))
      kept d m = rw (map-append (λ (j : Job). j.id) q.sorted (j ∷ [])) (Memᴰ.append_left _ m)

      last : Memᴰ j.id (ids (q.sorted ++ j ∷ []))
      last =
          rw (map-append (λ (j : Job). j.id) q.sorted (j ∷ []))
            (Memᴰ.append_right (ids q.sorted) (Memᴰ.head refl))

  seen-Done :
      (bound i : ℕ) (j : Job) (p : Progress)
      → get_elem? jobs i ≡ some j
      → rank j.id < bound
      → IsOpen bound p
      → IsSeen p i
      → Done p j.id
  seen-Done bound i j p job lt o h = elim (o.seen i j job h) [
    | inl d ↦ d
    | inr le ↦ absurd (omega arith)
  ]

  visit-Sorts : (fuel : ℕ) → Good (visit jobs fuel)
  unfolding visit
  visit-Sorts zero bound i j p q job lt o e = absurd (cc)
  visit-Sorts (suc fuel) bound i j p q job lt o e = elim (Option-cases (get_elem? p.visited i)) [
    | inl out ↦ absurd (ground arith)
    | inr (b, flag) ↦ elim (Bool-cases b) [
      | inl seen ↦
          let h : IsSeen p i = rw (flag, seen) in
          let same : p ≡ q = ground arith in
          subst (λ r. Sorts p r × Done r j.id) same
            (Sorts-refl o.first, seen-Done bound i j p job lt o h)
      | inr fresh ↦
          let (r, er, last) =
            >>=-eq-some (visit_all (visit jobs fuel) (dep_indices jobs j) (mark i p))
              (λ q. some (append_job j q)) (rw (flag, fresh, job, visit) at e) in
          let (s, deps) =
            visit_deps-Sorts (visit jobs fuel) (visit-Sorts fuel) (rank j.id) j.deps (mark i p) r
              (All-get _ jobs i acyclic.present job) (All-get _ jobs i acyclic.falls job)
              (mark-IsOpen bound i j p job lt o) er in
          let same : append_job j r ≡ q = cc in
          subst (λ q. Sorts p q × Done q j.id) same (append-Sorts bound i j p r job o s deps)
    ]
  ]

  pub top-Sorts :
      (fuel : ℕ) (is : List ℕ) (p q : Progress)
      → All (λ i. i < length jobs) is
      → ((bound : ℕ) → IsOpen bound p)
      → visit_all (visit jobs fuel) is p ≡ some q
      → DepsFirst [] q.sorted
  unfolding visit_all
  top-Sorts fuel [] p q h o e =
      let same : p ≡ q = cc in subst (λ r. DepsFirst [] r.sorted) same (o 0).first
  top-Sorts fuel (i ∷ is) p q (hi, h) o e =
      let (j, job) = get_elem?_lt jobs i hi in
      let (r, er, rest) = >>=-eq-some (visit jobs fuel i p) (visit_all (visit jobs fuel) is) e in
      let (s, _) =
        visit-Sorts fuel (suc (rank j.id)) i j p r job (omega arith) (o (suc (rank j.id))) er in
      top-Sorts fuel is r q h (λ bound. IsOpen-Sorts bound (o bound) s) rest
