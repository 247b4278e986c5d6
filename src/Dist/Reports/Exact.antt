-- ===== src/Dist/Reports/Exact.antt =====
-- What the turns of the goroutines of pkg/dist/build_service.go keep of the stream, where nothing fails.
use distbuild.Common.{
  ℕ, ◌+◌, ◌-◌, ◌≤◌, ◌<◌, ◌≡◌, refl, sym, ap, subst, ◌∙◌, inl, inr, Option, some, List, [], ◌∷◌,
  ◌++◌, length, length-append, get_elem?, get_elem?-set_cases, get_elem?-set_same,
  get_elem?-set_other, set, arith, Bool-cases, ◌==◌, if◌then◌else◌, Memᴰ,
}
use distbuild.Api.{JobResult}
use distbuild.Api.Status.{Frame, changed}
use distbuild.Dist.Reports.{
  Phase, waiting, counted, cancelled, decided, sent, failed, gone, Reports, update_for,
}
use distbuild.Dist.Reports.Counting.{weight, tally, won_sent, has_sent, is_finish}
use distbuild.Dist.Reports.Balance.{counts}
use distbuild.Dist.Reports.Turns.{finish_grows}
use distbuild.Dist.Reports.Steps.{Goes, HasHeard, Step, moves, rank, sends_update, stays}

mem-append_left : {a : Frame} (xs ys : List Frame) → Memᴰ a xs → Memᴰ a (xs ++ ys)
mem-append_left [] ys m = elim m [ ]
mem-append_left (x ∷ xs) ys (Memᴰ.head e) = Memᴰ.head e
mem-append_left (x ∷ xs) ys (Memᴰ.tail m) = Memᴰ.tail (mem-append_left xs ys m)

mem-snoc : (xs : List Frame) (a : Frame) → Memᴰ a (xs ++ a ∷ [])
mem-snoc [] a = Memᴰ.head refl
mem-snoc (x ∷ xs) a = Memᴰ.tail (mem-snoc xs a)

module _ (results : ℕ → Option JobResult) where
  pub record Exact (base : ℕ) (r : Reports) : Type 0 where
    pub goes : (i : ℕ) (p : Phase) → get_elem? r.phases i ≡ some p → Goes p
    pub quiet : r.errs ≡ []
    pub told : tally is_finish r.writer.frames ≡ tally won_sent r.phases
    pub shut : weight r.writer.done ≡ tally won_sent r.phases
    pub sized : length r.writer.frames ≡ base + tally has_sent r.phases
    pub heard :
        (i : ℕ) (p : Phase) → get_elem? r.phases i ≡ some p → HasHeard results i r.writer.frames p

  HasHeard-append :
      (i : ℕ) (fs gs : List Frame) (p : Phase)
      → HasHeard results i fs p
      → HasHeard results i (fs ++ gs) p
  HasHeard-append i fs gs (sent last) (job, has, m) = (job, has, mem-append_left fs gs m)
  HasHeard-append i fs gs (gone last) (job, has, m) = (job, has, mem-append_left fs gs m)
  HasHeard-append i fs gs (failed last) h = tt
  HasHeard-append i fs gs (decided last) h = tt
  HasHeard-append i fs gs waiting h = tt
  HasHeard-append i fs gs counted h = tt
  HasHeard-append i fs gs cancelled h = tt

  -- What holds of the new phase and of the old ones holds of all.
  set_all :
      (P : ℕ → Phase → Type 0) (ps ps' : List Phase) (i : ℕ) (q : Phase)
      → ps' ≡ set ps i q
      → P i q
      → ((k : ℕ) (p : Phase) → get_elem? ps k ≡ some p → P k p)
      → (k : ℕ) (p : Phase) → get_elem? ps' k ≡ some p
      → P k p
  set_all P ps ps' i q moved new old k p at =
      elim (get_elem?-set_cases ps i q k (sym (ap (λ l. get_elem? l k) moved) ∙ at)) [
        | inl (same, is) ↦ subst (λ j. P j p) same (subst (λ x. P i x) is new)
        | inr (other, was) ↦ old k p was
      ]

  pub Step-Exact :
      (base i : ℕ) (r r' : Reports) → Step results i r r' → Exact base r → Exact base r'
  unfolding won_sent has_sent
  Step-Exact base i r r' (stays e still) x = subst (λ s. Exact base s) (sym e) x
  Step-Exact base i r r' (moves p q at e same errs down goes a b carry) x = record {
    goes = set_all (λ k. Goes) r.phases r'.phases i q e goes x.goes;
    quiet = errs ∙ x.quiet;
    told = ground (arith, x.told, counts r r' i p q at e won_sent);
    shut = ground (arith, x.shut, counts r r' i p q at e won_sent);
    sized = ground (arith, x.sized, counts r r' i p q at e has_sent);
    heard =
        set_all (λ k y. HasHeard results k r'.writer.frames y) r.phases r'.phases i q e
          (carry r'.writer.frames
            (subst (λ w. HasHeard results i w.frames p) (sym same) (x.heard i p at)))
          (λ k y h. subst (λ w. HasHeard results k w.frames y) (sym same) (x.heard k y h));
  }
  Step-Exact base i r r' (sends_update job last has at e more done errs) x =
      let new = changed (update_for job last) ∷ [] in
      record {
        goes = set_all (λ k. Goes) r.phases r'.phases i (sent last) e tt x.goes;
        quiet = errs ∙ x.quiet;
        told = ground (
          arith,
          x.told,
          more,
          finish_grows r.writer.frames job last,
          counts r r' i (decided last) (sent last) at e won_sent,
        );
        shut = ground (arith, x.shut, done, counts r r' i (decided last) (sent last) at e won_sent);
        sized = ground (
          arith,
          x.sized,
          more,
          length-append r.writer.frames new,
          counts r r' i (decided last) (sent last) at e has_sent,
        );
        heard =
            set_all (λ k y. HasHeard results k r'.writer.frames y) r.phases r'.phases i (sent last)
              e
              (
                job,
                has,
                subst (λ fs. Memᴰ (changed (update_for job last)) fs) (sym more)
                    (mem-snoc r.writer.frames (changed (update_for job last))),
              )
              (λ k y h.
                subst (λ fs. HasHeard results k fs y) (sym more)
                  (HasHeard-append k r.writer.frames new y (x.heard k y h)));
      }

  abbrev pub one_if : ℕ → ℕ → ℕ
  one_if i k = if i == k then 1 else 0

  moved-nearer :
      (i : ℕ) (r r' : Reports) (a q : Phase)
      → get_elem? r.phases i ≡ some a
      → r'.phases ≡ set r.phases i q
      → rank q < rank a
      → (k : ℕ) (p : Phase) → get_elem? r.phases k ≡ some p
      → (q : Phase) × (get_elem? r'.phases k ≡ some q) × (rank q ≤ rank p - one_if i k)
  moved-nearer i r r' a q is e less k p at = elim (Bool-cases (i == k)) [
    | inl own ↦
        let same : i ≡ k = ground (arith, own) in
        let was : get_elem? r.phases k ≡ some a =
          subst (λ j. get_elem? r.phases j ≡ some a) same is in
        let old : p ≡ a = ground (arith, was, at) in
        (
          q,
          ap (λ l. get_elem? l k) e
              ∙ subst (λ j. get_elem? (set r.phases i q) j ≡ some q) same
                  (get_elem?-set_same r.phases i q is),
          ground (arith, own, old, less),
        )
    | inr other ↦ (
      p,
      ap (λ l. get_elem? l k) e
          ∙ get_elem?-set_other r.phases i q k (λ x. absurd (ground (arith, other)))
          ∙ at,
      ground (arith, other),
    )
  ]

  -- A turn brings its own goroutine nearer to the end, and no other one further from it.
  pub Step-nearer :
      (i : ℕ) (r r' : Reports)
      → Step results i r r'
      → ((k : ℕ) (p : Phase) → get_elem? r.phases k ≡ some p → Goes p)
      → (k : ℕ) (p : Phase) → get_elem? r.phases k ≡ some p
      → (q : Phase) × (get_elem? r'.phases k ≡ some q) × (rank q ≤ rank p - one_if i k)
  unfolding rank
  Step-nearer i r r' (stays e still) goes k p at = elim (Bool-cases (i == k)) [
    | inl own ↦
        let same : i ≡ k = ground (arith, own) in
        let low : rank p ≡ 0 =
          still p (subst (λ j. get_elem? r.phases j ≡ some p) (sym same) at) (goes k p at) in
        (p, ap (λ s. get_elem? s.phases k) e ∙ at, omega (arith, low))
    | inr other ↦ (p, ap (λ s. get_elem? s.phases k) e ∙ at, ground (arith, other))
  ]
  Step-nearer i r r' (moves a q is e same errs down g h1 h2 carry) goes k p at =
      moved-nearer i r r' a q is e (omega (arith, down)) k p at
  Step-nearer i r r' (sends_update job last has is e more done errs) goes k p at =
      moved-nearer i r r' (decided last) (sent last) is e (ground arith) k p at
