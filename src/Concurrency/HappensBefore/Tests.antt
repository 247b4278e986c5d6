-- ===== src/Concurrency/HappensBefore/Tests.antt =====
-- The machine on one key.
use distbuild.Common.{ℕ, ◌≡◌, refl, true, false, ℕ_discrete, lookup, insert, returns, blocks}
use distbuild.Concurrency.HappensBefore.{
  Machine, new_machine, or_nothing, is_waiting, level, store, happen, before, wake,
}
use distbuild.Concurrency.HappensBefore.Order.{Rests, new_machine-Rests, before-happen}

before-happen_example :
    ((a : Machine ℕ) × (b : Machine ℕ) × (happen ℕ_discrete 7 new_machine ≡ returns a)
      × (before ℕ_discrete 7 a ≡ (false, b))
      × Rests ℕ_discrete b 7)
    × ((a : Machine ℕ) × (b : Machine ℕ) × (c : Machine ℕ) × (before ℕ_discrete 7 new_machine
          ≡ (true, a))
        × (wake ℕ_discrete 7 a ≡ blocks)
        × (happen ℕ_discrete 7 a ≡ returns b)
        × (wake ℕ_discrete 7 b ≡ returns c)
        × Rests ℕ_discrete c 7)
before-happen_example = before-happen ℕ_discrete 7 new_machine (new_machine-Rests ℕ_discrete 7)

-- A second `Before` passes although the event has not happened.
second_passes : (before ℕ_discrete 7 (before ℕ_discrete 7 new_machine).1).0 ≡ false
unfolding new_machine before level store or_nothing is_waiting lookup insert ℕ_discrete
second_passes = refl
