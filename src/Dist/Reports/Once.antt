-- ===== src/Dist/Reports/Once.antt =====
-- At most one goroutine says that the build has finished.
use distbuild.Common.{
  All, ℕ, ◌≤◌, ◌<◌, ◌≡◌, refl, sym, inl, true, false, Option, some, List, [], ◌∷◌, length,
  length-replicate, Dict, arith, returns,
}
use distbuild.Build.{BuildId, Text}
use distbuild.Api.{JobResult}
use distbuild.Api.Status.{StatusWriter}
use distbuild.Filecache.{Files}
use distbuild.Dist.Reports.{waiting, Reports, Turn, proceed, cancel, take_turns, begin_reports}
use distbuild.Dist.Reports.Counting.{
  won_tried-le-won, tally_mono, tally, tally-replicate, has_added, is_counted, has_won, won_tried,
  won_sent, is_finish,
}
use distbuild.Dist.Reports.Balance.{won-le-one}
use distbuild.Dist.Reports.Turns.{IsPossible, Fine, Keeps, Keeps-returns, take_turns-Keeps}

-- A stream that has begun and on which the build has not finished.
pub record Going (w : StatusWriter) : Type 0 where
  pub began : w.start_msg_send ≡ true
  pub still_open : w.done ≡ false
  pub unfinished : tally is_finish w.frames ≡ 0

pub length-begin_reports :
    (n : ℕ) (w : StatusWriter) (c : Files) → length (begin_reports n w c).phases ≡ n
unfolding begin_reports
length-begin_reports n w c = length-replicate n waiting

pub begin_reports-Fine :
    (n : ℕ) (w : StatusWriter) (c : Files) → Going w → Fine (begin_reports n w c)
unfolding begin_reports has_added has_won is_counted won_tried won_sent
begin_reports-Fine n w c g = record {
  balanced = record {
    tied =
        inl
          (tally-replicate has_won n waiting refl, sym (tally-replicate has_added n waiting refl));
    left = λ x y z. absurd (omega (arith, tally-replicate has_added n waiting refl));
  };
  began = g.began;
  shut = ground (arith, g.still_open);
  finishes = omega (arith, g.unfinished);
}

pub turns-IsPossible :
    (results : ℕ → Option JobResult) (n : ℕ)
    → ((i : ℕ) → i < n → (job : JobResult) × (results i ≡ some job))
    → (ts : List Turn) → All (IsPossible n results) ts
turns-IsPossible results n all [] = tt
turns-IsPossible results n all (proceed i how sys ∷ ts) = (all i, turns-IsPossible results n all ts)
turns-IsPossible results n all (cancel i ∷ ts) = (tt, turns-IsPossible results n all ts)

-- Whatever turns the goroutines of a signalled build take, cancelled or with failing sends, none of
-- them panics, and at most one message on the stream says that the build has finished. This is where
-- the stream has begun without such a message and every finished job has a result.
pub reports_finish_once :
    (sources : List (Dict BuildId Text)) (results : ℕ → Option JobResult) (n : ℕ) (w : StatusWriter)
    (c : Files) (ts : List Turn)
    → ((i : ℕ) → i < n → (job : JobResult) × (results i ≡ some job))
    → Going w
    → (r : Reports) × (take_turns sources results ts (begin_reports n w c) ≡ returns r)
      × (tally is_finish r.writer.frames ≤ 1)
unfolding begin_reports Keeps
reports_finish_once sources results n w c ts all g =
    let start = begin_reports n w c in
    let kept =
      take_turns-Keeps sources results n ts start (turns-IsPossible results n all ts)
        (begin_reports-Fine n w c g) (length-replicate n waiting) in
    let (r, p, fine, size) = Keeps-returns n (take_turns sources results ts start) kept in
    (
      r,
      p,
      omega (
        arith,
        fine.finishes,
        tally_mono won_tried has_won r.phases won_tried-le-won,
        won-le-one r fine.balanced,
      ),
    )
