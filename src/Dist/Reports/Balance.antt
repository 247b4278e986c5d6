-- ===== src/Dist/Reports/Balance.antt =====
-- The count of the finished jobs and the goroutine that swaps it.
use distbuild.Common.{
  ℕ, ◌+◌, ◌≤◌, ◌<◌, ◌≡◌, ◌≢◌, ap, ◌∙◌, ◌⊎◌, Bool, true, false, some, length, lt_of_get_elem?,
  length-set, get_elem?, set, arith,
}
use distbuild.Dist.Reports.{Phase, waiting, counted, decided, sent, Reports}
use distbuild.Dist.Reports.Counting.{
  won_sent-le-tried, won_tried-le-won, tally_mono, weight, tally, tally-set, tally-le-length,
  has_added, is_counted, has_won, won_tried, won_sent,
}

-- The count is that of the goroutines that have added, until one of them swaps it for 0 when all have.
pub record Balanced (r : Reports) : Type 0 where
  pub tied :
      ((tally has_won r.phases ≡ 0) × (r.finished_job_count ≡ tally has_added r.phases))
      ⊎ ((tally has_won r.phases ≡ 1)
          × (r.finished_job_count ≡ 0)
          × (tally has_added r.phases ≡ length r.phases))
  pub left :
      tally has_won r.phases ≡ 0
      → tally has_added r.phases ≡ length r.phases
      → 0 < length r.phases
      → 0 < tally is_counted r.phases

-- The numbers of a state that matter.
module _ (r r' : Reports) (i : ℕ) (p q : Phase) (at : get_elem? r.phases i ≡ some p)
    (moves : r'.phases ≡ set r.phases i q) where
  pub counts :
      (f : Phase → Bool) → tally f r'.phases + weight (f p) ≡ tally f r.phases + weight (f q)
  counts f = ap (λ ps. tally f ps + weight (f p)) moves ∙ tally-set f r.phases i p q at

  pub same_length : length r'.phases ≡ length r.phases
  same_length = ap length moves ∙ length-set r.phases i q

  -- A move that neither adds nor swaps.
  pub keep-Balanced :
      has_added p ≡ has_added q
      → has_won p ≡ has_won q
      → is_counted p ≡ is_counted q
      → r'.finished_job_count ≡ r.finished_job_count
      → Balanced r
      → Balanced r'
  keep-Balanced a b c same v = record {
    tied = ground (arith, v.tied, counts has_added, counts has_won, same_length);
    left = λ x y z.
        ground (arith, v.left, counts has_added, counts has_won, counts is_counted, same_length);
  }

  pub add-Balanced :
      p ≡ waiting
      → q ≡ counted
      → r'.finished_job_count ≡ r.finished_job_count + 1
      → Balanced r
      → Balanced r'
  unfolding has_added has_won is_counted
  add-Balanced a b more v = record {
    tied = ground (
      arith,
      v.tied,
      counts has_added,
      counts has_won,
      same_length,
      tally-le-length has_added r'.phases,
    );
    left = λ x y z. ground (arith, counts is_counted);
  }

  pub win-Balanced :
      p ≡ counted
      → q ≡ decided true
      → r.finished_job_count ≡ length r.phases
      → r'.finished_job_count ≡ 0
      → Balanced r
      → Balanced r'
  unfolding has_added has_won is_counted
  win-Balanced a b all swapped v =
      let some_job : i < length r.phases = lt_of_get_elem? r.phases i at in
      record {
        tied = ground (arith, v.tied, counts has_added, counts has_won, same_length);
        left = λ x y z. absurd (ground (arith, v.tied, counts has_won));
      }

  pub lose-Balanced :
      p ≡ counted
      → q ≡ decided false
      → r.finished_job_count ≢ length r.phases
      → r'.finished_job_count ≡ r.finished_job_count
      → Balanced r
      → Balanced r'
  unfolding has_added has_won is_counted
  lose-Balanced a b less same v = record {
    tied = ground (arith, v.tied, counts has_added, counts has_won, same_length);
    left = λ x y z. absurd (ground (arith, v.tied, counts has_won, counts has_added, same_length));
  }

pub won-le-one : (r : Reports) → Balanced r → tally has_won r.phases ≤ 1
won-le-one r v = ground (arith, v.tied)

-- A goroutine that has won and not yet sent is the only one that has.
pub alone :
    (r : Reports) (i : ℕ)
    → get_elem? r.phases i ≡ some (decided true)
    → Balanced r
    → (tally won_tried r.phases ≡ 0) × (tally won_sent r.phases ≡ 0)
unfolding has_won won_tried
alone r i at v =
    let ps = set r.phases i (sent true) in
    omega (
      arith,
      won-le-one r v,
      tally-set has_won r.phases i (decided true) (sent true) at,
      tally-set won_tried r.phases i (decided true) (sent true) at,
      tally_mono won_tried has_won ps won_tried-le-won,
      tally_mono won_sent won_tried r.phases won_sent-le-tried,
    )
