-- ===== src/Dist/Reports/Ends.antt =====
-- When the goroutines of pkg/dist/build_service.go have all had their turns.
use distbuild.Common.{
  ℕ, zero, suc, ◌+◌, ◌-◌, ◌≤◌, ◌<◌, ◌≡◌, refl, sym, ap, subst, ◌∙◌, inl, inr, Bool, true, false,
  Option, some, List, [], ◌∷◌, length, get_elem?, lt_of_get_elem?, get_elem?_lt, Dict, replicate,
  length-replicate, arith, returns, ◌andthen◌, ◌==◌, if◌then◌else◌, All, Memᴰ,
}
use distbuild.Build.{BuildId, Text}
use distbuild.Api.{JobResult}
use distbuild.Api.Status.{Frame, changed, sends, write_fails, flush_fails, StatusWriter}
use distbuild.Filecache.{Files}
use distbuild.Dist.Reports.{
  Phase, waiting, counted, cancelled, decided, sent, failed, gone, Reports, update_for, Turn,
  proceed, cancel, take_turn, take_turns, begin_reports,
}
use distbuild.Dist.Reports.Counting.{
  tally, tally-replicate, tally_full, tally_none, tally_same, has_added, is_counted, has_won,
  won_sent, has_sent, is_finish,
}
use distbuild.Dist.Reports.Steps.{rank, Goes, HasHeard, advance-Step}
use distbuild.Dist.Reports.Exact.{Exact, Step-Exact, Step-nearer}
use distbuild.Dist.Reports.Turns.{Fine, Keeps-returns, take_turn-Keeps}
use distbuild.Dist.Reports.Once.{Going, begin_reports-Fine}

abbrev pub IsSmooth : Turn → Type 0
IsSmooth (proceed i sends sys) = Unit
IsSmooth _ = ⊥

-- How many turns goroutine `i` has.
unfoldable pub turns_of : ℕ → List Turn → ℕ
turns_of i [] = 0
turns_of i (proceed j how sys ∷ ts) = (if j == i then 1 else 0) + turns_of i ts
turns_of i (cancel j ∷ ts) = turns_of i ts

gone_of : (p : Phase) → rank p ≡ 0 → Goes p → (last : Bool) × (p ≡ gone last)
unfolding rank
gone_of (gone last) h g = (last, refl)
gone_of (failed last) h g = absurd g
gone_of cancelled h g = absurd g
gone_of waiting h g = absurd (omega arith)
gone_of counted h g = absurd (omega arith)
gone_of (decided last) h g = absurd (omega arith)
gone_of (sent last) h g = absurd (omega arith)

module _ (sources : List (Dict BuildId Text)) (results : ℕ → Option JobResult) (n : ℕ)
    (all : (i : ℕ) → i < n → (job : JobResult) × (results i ≡ some job)) where
  smooth_turns :
      (base : ℕ) (ts : List Turn) (r : Reports)
      → Fine r
      → length r.phases ≡ n
      → Exact results base r
      → All IsSmooth ts
      → (r' : Reports) × (take_turns sources results ts r ≡ returns r')
        × Fine r'
        × (length r'.phases ≡ n)
        × Exact results base r'
        × ((k : ℕ) (p : Phase)
            → get_elem? r.phases k ≡ some p
            → (q : Phase) × (get_elem? r'.phases k ≡ some q) × (rank q ≤ rank p - turns_of k ts))
  unfolding take_turns take_turn turns_of
  smooth_turns base [] r v size x smooth = (r, refl, v, size, x, λ k p at. (p, at, omega arith))
  smooth_turns base (cancel i ∷ ts) r v size x smooth = absurd smooth.0
  smooth_turns base (proceed i write_fails sys ∷ ts) r v size x smooth = absurd smooth.0
  smooth_turns base (proceed i flush_fails sys ∷ ts) r v size x smooth = absurd smooth.0
  smooth_turns base (proceed i sends sys ∷ ts) r v size x (now, smooth) =
      let (s, e, v', size') =
        Keeps-returns n (take_turn sources results (proceed i sends sys) r)
          (take_turn-Keeps sources results n (proceed i sends sys) r (all i) v size) in
      let st = advance-Step sources results i sys r s (get_elem? r.phases i) v refl e in
      let (t, e', w, size'', y, near) =
        smooth_turns base ts s v' size' (Step-Exact results base i r s st x) smooth in
      (
        t,
        ap (λ o. o andthen λ r'. take_turns sources results ts r') e ∙ e',
        w,
        size'',
        y,
        λ k p at.
            let (q, is, less) = Step-nearer results i r s st x.goes k p at in
            let (q', is', less') = near k q is in (q', is', omega (arith, less, less')),
      )

  -- Where all goroutines are at their end.
  ended :
      (base : ℕ) (r : Reports)
      → 0 < n
      → Fine r
      → length r.phases ≡ n
      → Exact results base r
      → ((k : ℕ) (p : Phase) → get_elem? r.phases k ≡ some p → (last : Bool) × (p ≡ gone last))
      → (r.writer.done ≡ true)
        × (tally is_finish r.writer.frames ≡ 1)
        × (length r.writer.frames ≡ base + n)
  unfolding has_added is_counted has_won won_sent has_sent
  ended base r some_job v size x over =
      let by =
        λ (P : Phase → Type 0) (f : (last : Bool) → P (gone last)) (k : ℕ) (p : Phase)
            (at : get_elem? r.phases k ≡ some p).
          let (last, is) = over k p at in subst P (sym is) (f last) in
      let added : tally has_added r.phases ≡ length r.phases =
        tally_full has_added r.phases (by (λ p. has_added p ≡ true) (λ last. refl)) in
      let undecided : tally is_counted r.phases ≡ 0 =
        tally_none is_counted r.phases (by (λ p. is_counted p ≡ false) (λ last. refl)) in
      let all_sent : tally has_sent r.phases ≡ length r.phases =
        tally_full has_sent r.phases (by (λ p. has_sent p ≡ true) (λ last. refl)) in
      let winners : tally won_sent r.phases ≡ tally has_won r.phases =
        tally_same won_sent has_won r.phases (by (λ p. won_sent p ≡ has_won p) (λ last. refl)) in
      let one : tally has_won r.phases ≡ 1 = elim v.balanced.tied [
        | inl (none_won, c) ↦
            absurd (omega (arith, v.balanced.left none_won added (omega (arith, size)), undecided))
        | inr (won, c, d) ↦ won
      ] in
      (ground (arith, x.shut), omega (arith, x.told), omega (arith, x.sized))

get_elem?-replicate :
    (n : ℕ) (x : Phase) (i : ℕ) (p : Phase) → get_elem? (replicate n x) i ≡ some p → p ≡ x
get_elem?-replicate zero x i p h = absurd (cc)
get_elem?-replicate (suc n) x zero p h = cc
get_elem?-replicate (suc n) x (suc i) p h = get_elem?-replicate n x i p h

get_elem?-replicate_lt : (n : ℕ) (x : Phase) (i : ℕ) → i < n → get_elem? (replicate n x) i ≡ some x
get_elem?-replicate_lt zero x i h = elim h [ ]
get_elem?-replicate_lt (suc n) x zero h = refl
get_elem?-replicate_lt (suc n) x (suc i) h = get_elem?-replicate_lt n x i (omega arith)

begin_reports-Exact :
    (results : ℕ → Option JobResult) (n : ℕ) (w : StatusWriter) (c : Files)
    → Going w
    → Exact results (length w.frames) (begin_reports n w c)
unfolding begin_reports won_sent has_sent
begin_reports-Exact results n w c g = record {
  goes = λ i p at. subst Goes (sym (get_elem?-replicate n waiting i p at)) tt;
  quiet = refl;
  told = omega (arith, g.unfinished, tally-replicate won_sent n waiting refl);
  shut = ground (arith, g.still_open, tally-replicate won_sent n waiting refl);
  sized = omega (arith, tally-replicate has_sent n waiting refl);
  heard =
      λ i p at. subst (HasHeard results i w.frames) (sym (get_elem?-replicate n waiting i p at)) tt;
}

-- A goroutine that has ended after a smooth run has its update on the stream.
heard_end :
    (results : ℕ → Option JobResult) (i : ℕ) (fs : List Frame) (job : JobResult) (p : Phase)
    → (last : Bool) × (p ≡ gone last)
    → results i ≡ some job
    → HasHeard results i fs p
    → (last : Bool) × Memᴰ (changed (update_for job last)) fs
heard_end results i fs job p (last, e) has h =
    let (other, has', m) = subst (HasHeard results i fs) e h in
    let same : other ≡ job = ground (arith, has, has') in
    (last, subst (λ j. Memᴰ (changed (update_for j last)) fs) same m)

-- The jobs of a build that has some all end, no context is cancelled and no send fails: once each of
-- the goroutines has had four turns, in whatever order, all of them are over. The stream has gained
-- one message for each job, the update of every job is among them, none of them met an error, exactly one message says that
-- the build has finished, and the channel that the client's request waits for is closed.
pub reports_end :
    (sources : List (Dict BuildId Text)) (results : ℕ → Option JobResult) (n : ℕ) (w : StatusWriter)
    (c : Files) (ts : List Turn)
    → 0 < n
    → ((i : ℕ) → i < n → (job : JobResult) × (results i ≡ some job))
    → Going w
    → All IsSmooth ts
    → ((i : ℕ) → i < n → 4 ≤ turns_of i ts)
    → (r : Reports) × (take_turns sources results ts (begin_reports n w c) ≡ returns r)
      × (r.writer.done ≡ true)
      × (tally is_finish r.writer.frames ≡ 1)
      × (length r.writer.frames ≡ length w.frames + n)
      × ((i : ℕ) (job : JobResult)
          → i < n
          → results i ≡ some job
          → (last : Bool) × Memᴰ (changed (update_for job last)) r.writer.frames)
      × ((k : ℕ) (p : Phase) → get_elem? r.phases k ≡ some p → (last : Bool) × (p ≡ gone last))
      × (r.errs ≡ [])
unfolding begin_reports rank
reports_end sources results n w c ts some_job all g smooth fair =
    let start = begin_reports n w c in
    let (r, e, v, size, x, near) =
      smooth_turns sources results n all (length w.frames) ts start (begin_reports-Fine n w c g)
        (length-replicate n waiting) (begin_reports-Exact results n w c g) smooth in
    let over : (k : ℕ) (p : Phase)
        → get_elem? r.phases k ≡ some p
        → (last : Bool) × (p ≡ gone last) =
      λ k p at.
        let inside : k < n = subst (λ m. k < m) size (lt_of_get_elem? r.phases k at) in
        let (q, is, less) = near k waiting (get_elem?-replicate_lt n waiting k inside) in
        let same : q ≡ p = ground (arith, is, at) in
        gone_of p (subst (λ z. rank z ≡ 0) same (omega (arith, less, fair k inside)))
          (x.goes k p at) in
    let (closed, once, sized) =
      ended sources results n all (length w.frames) r some_job v size x over in
    (
      r,
      e,
      closed,
      once,
      sized,
      λ i job inside has.
          let (p, at) = get_elem?_lt r.phases i (subst (λ m. i < m) (sym size) inside) in
          heard_end results i r.writer.frames job p (over i p at) has (x.heard i p at),
      over,
      x.quiet,
    )
