-- ===== src/Dist/Reports/Steps.antt =====
-- One turn of a goroutine of pkg/dist/build_service.go, where no context is cancelled and no send fails.
use distbuild.Common.{
  ℕ, suc, ◌+◌, ◌≡◌, refl, inl, inr, Bool, true, false, Option, none, some, List, [], ◌∷◌, ◌++◌,
  length, get_elem?, set, Dict, arith, returns, Option-cases, Bool-cases, ◌==◌, Memᴰ,
}
use distbuild.Build.{BuildId, Text}
use distbuild.Api.{JobResult}
use distbuild.Api.Status.{Frame, changed, sends, updated, close_done}
use distbuild.Filecache.{System}
use distbuild.Dist.Reports.{
  Phase, waiting, counted, cancelled, decided, sent, failed, gone, Reports, update_for, decide,
  report, after_send, advance,
}
use distbuild.Dist.Reports.Counting.{weight, won_sent, has_sent}
use distbuild.Dist.Reports.Turns.{Fine}

-- The turns that a goroutine needs still.
unfoldable pub rank : Phase → ℕ
rank waiting = 4
rank counted = 3
rank (decided last) = 2
rank (sent last) = 1
rank (gone last) = 0
rank (failed last) = 0
rank cancelled = 0

-- Neither cancelled nor failed.
abbrev pub Goes : Phase → Type 0
Goes cancelled = ⊥
Goes (failed last) = ⊥
Goes _ = Unit

-- The update of a goroutine that has sent it stands on the stream.
abbrev pub HasHeard : (ℕ → Option JobResult) → ℕ → List Frame → Phase → Type 0
HasHeard results i fs (sent last) =
    (job : JobResult) × (results i ≡ some job) × Memᴰ (changed (update_for job last)) fs
HasHeard results i fs (gone last) =
    (job : JobResult) × (results i ≡ some job) × Memᴰ (changed (update_for job last)) fs
HasHeard results i fs _ = Unit

pub data Step (results : ℕ → Option JobResult) (i : ℕ) (r r' : Reports) : Type 0 where
  stays :
      r' ≡ r
      → ((p : Phase) → get_elem? r.phases i ≡ some p → Goes p → rank p ≡ 0)
      → Step results i r r'
  moves :
      (p q : Phase)
      → get_elem? r.phases i ≡ some p
      → r'.phases ≡ set r.phases i q
      → r'.writer ≡ r.writer
      → r'.errs ≡ r.errs
      → rank p ≡ suc (rank q)
      → Goes q
      → has_sent p ≡ has_sent q
      → won_sent p ≡ won_sent q
      → ((fs : List Frame) → HasHeard results i fs p → HasHeard results i fs q)
      → Step results i r r'
  sends_update :
      (job : JobResult) (last : Bool)
      → results i ≡ some job
      → get_elem? r.phases i ≡ some (decided last)
      → r'.phases ≡ set r.phases i (sent last)
      → r'.writer.frames ≡ r.writer.frames ++ changed (update_for job last) ∷ []
      → weight r'.writer.done ≡ weight r.writer.done + weight last
      → r'.errs ≡ r.errs
      → Step results i r r'

module _ (sources : List (Dict BuildId Text)) (results : ℕ → Option JobResult) (i : ℕ)
    (sys : BuildId → System) where
  decide-Step :
      (r r' : Reports)
      → get_elem? r.phases i ≡ some counted
      → decide results i r ≡ returns r'
      → Step results i r r'
  unfolding decide rank has_sent won_sent
  decide-Step r r' at e = elim (Option-cases (results i)) [
    | inl absent ↦ absurd (ground arith)
    | inr (job, has) ↦ elim (Bool-cases (r.finished_job_count == length r.phases)) [
      | inl all ↦
          moves counted (decided true) at (ground arith) (ground arith) (ground arith) refl tt refl
            refl (λ fs h. tt)
      | inr less ↦
          moves counted (decided false) at (ground arith) (ground arith) (ground arith) refl tt refl
            refl (λ fs h. tt)
    ]
  ]

  report-Step :
      (r r' : Reports) (last : Bool)
      → Fine r
      → get_elem? r.phases i ≡ some (decided last)
      → report results i last sends r ≡ returns r'
      → Step results i r r'
  unfolding report after_send updated close_done
  report-Step r r' last v at e = elim (Option-cases (results i)) [
    | inl absent ↦ absurd (ground arith)
    | inr (job, has) ↦
        elim last
            as (λ l.
              get_elem? r.phases i ≡ some (decided l)
              → report results i l sends r ≡ returns r'
              → Step results i r r') [
                | false ↦ λ at e.
                    sends_update job false has at (ground (arith, v.began))
                      (ground (arith, v.began)) (ground (arith, v.began)) (ground (arith, v.began))
                | true ↦ λ at e.
                    sends_update job true has at (ground (arith, v.began)) (ground (arith, v.began))
                      (ground (arith, v.began)) (ground (arith, v.began))
              ]
          at e
  ]

  pub advance-Step :
      (r r' : Reports) (o : Option Phase)
      → Fine r
      → get_elem? r.phases i ≡ o
      → advance sources results i sends sys o r ≡ returns r'
      → Step results i r r'
  unfolding advance rank has_sent won_sent
  advance-Step r r' none v at e = stays (ground arith) (λ p q g. absurd (cc))
  advance-Step r r' (some waiting) v at e =
      moves waiting counted at (ground arith) (ground arith) (ground arith) refl tt refl refl
        (λ fs h. tt)
  advance-Step r r' (some counted) v at e = decide-Step r r' at e
  advance-Step r r' (some (decided last)) v at e = report-Step r r' last v at e
  advance-Step r r' (some (sent last)) v at e =
      moves (sent last) (gone last) at (ground arith) (ground arith) (ground arith) refl tt refl
        refl (λ fs h. h)
  advance-Step r r' (some cancelled) v at e = stays (ground arith) (λ p q g. ground arith)
  advance-Step r r' (some (failed last)) v at e = stays (ground arith) (λ p q g. ground arith)
  advance-Step r r' (some (gone last)) v at e = stays (ground arith) (λ p q g. ground arith)
