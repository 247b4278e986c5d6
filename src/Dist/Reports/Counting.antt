-- ===== src/Dist/Reports/Counting.antt =====
-- How many goroutines of pkg/dist/build_service.go stand where.
use distbuild.Common.{
  ℕ, zero, suc, ◌+◌, ◌≤◌, ◌≡◌, refl, Bool, true, false, none, some, List, [], ◌∷◌, ◌++◌, length,
  get_elem?, set, replicate, arith,
}
use distbuild.Api.Status.{Frame, begun, changed, other}
use distbuild.Dist.Reports.{Phase, waiting, counted, cancelled, decided, sent, failed, gone}

abbrev pub weight : Bool → ℕ
weight false = 0
weight true = 1

unfoldable pub tally {ℓ} : {A : Type ℓ} → (A → Bool) → List A → ℕ
tally f [] = 0
tally f (x ∷ xs) = weight (f x) + tally f xs

module _ {ℓ} {A : Type ℓ} (f : A → Bool) where
  pub tally-set :
      (xs : List A) (i : ℕ) (p q : A)
      → get_elem? xs i ≡ some p
      → tally f (set xs i q) + weight (f p) ≡ tally f xs + weight (f q)
  unfolding tally
  tally-set [] i p q h = absurd (cc)
  tally-set (x ∷ xs) zero p q h = ground arith
  tally-set (x ∷ xs) (suc i) p q h = omega (arith, tally-set xs i p q h)

  pub tally-replicate : (n : ℕ) (x : A) → f x ≡ false → tally f (replicate n x) ≡ 0
  unfolding tally
  tally-replicate zero x h = refl
  tally-replicate (suc n) x h = ground (arith, h, tally-replicate n x h)

  pub tally-le-length : (xs : List A) → tally f xs ≤ length xs
  unfolding tally
  tally-le-length [] = omega arith
  tally-le-length (x ∷ xs) = ground (arith, tally-le-length xs)

  pub tally-append : (xs ys : List A) → tally f (xs ++ ys) ≡ tally f xs + tally f ys
  unfolding tally
  tally-append [] ys = omega arith
  tally-append (x ∷ xs) ys = omega (arith, tally-append xs ys)

  pub tally_mono :
      (g : A → Bool) (xs : List A)
      → ((x : A) → weight (f x) ≤ weight (g x))
      → tally f xs ≤ tally g xs
  unfolding tally
  tally_mono g [] below = omega arith
  tally_mono g (x ∷ xs) below = omega (arith, below x, tally_mono g xs below)

  -- All of them, when one of each kind is there.
  pub tally_full :
      (xs : List A)
      → ((i : ℕ) (x : A) → get_elem? xs i ≡ some x → f x ≡ true)
      → tally f xs ≡ length xs
  unfolding tally
  tally_full [] all = refl
  tally_full (x ∷ xs) all = ground (arith, all 0 x refl, tally_full xs (λ i y h. all (suc i) y h))

  pub tally_none :
      (xs : List A) → ((i : ℕ) (x : A) → get_elem? xs i ≡ some x → f x ≡ false) → tally f xs ≡ 0
  unfolding tally
  tally_none [] all = refl
  tally_none (x ∷ xs) all = ground (arith, all 0 x refl, tally_none xs (λ i y h. all (suc i) y h))

  pub tally_same :
      (g : A → Bool) (xs : List A)
      → ((i : ℕ) (x : A) → get_elem? xs i ≡ some x → f x ≡ g x)
      → tally f xs ≡ tally g xs
  unfolding tally
  tally_same g [] same = refl
  tally_same g (x ∷ xs) same =
      ground (arith, same 0 x refl, tally_same g xs (λ i y h. same (suc i) y h))

-- The goroutines that have added to the count.
unfoldable pub has_added : Phase → Bool
has_added waiting = false
has_added cancelled = false
has_added counted = true
has_added (decided last) = true
has_added (sent last) = true
has_added (failed last) = true
has_added (gone last) = true

-- Those that have yet to swap.
unfoldable pub is_counted : Phase → Bool
is_counted counted = true
is_counted waiting = false
is_counted cancelled = false
is_counted (decided last) = false
is_counted (sent last) = false
is_counted (failed last) = false
is_counted (gone last) = false

-- Those that have swapped the count for 0.
unfoldable pub has_won : Phase → Bool
has_won waiting = false
has_won cancelled = false
has_won counted = false
has_won (decided last) = last
has_won (sent last) = last
has_won (failed last) = last
has_won (gone last) = last

-- Those of them that have tried to send their update, and those that have sent it.
unfoldable pub won_tried : Phase → Bool
won_tried waiting = false
won_tried cancelled = false
won_tried counted = false
won_tried (decided last) = false
won_tried (sent last) = last
won_tried (failed last) = last
won_tried (gone last) = last

unfoldable pub won_sent : Phase → Bool
won_sent waiting = false
won_sent cancelled = false
won_sent counted = false
won_sent (decided last) = false
won_sent (sent last) = last
won_sent (failed last) = false
won_sent (gone last) = last

unfoldable pub has_sent : Phase → Bool
has_sent waiting = false
has_sent cancelled = false
has_sent counted = false
has_sent (decided last) = false
has_sent (sent last) = true
has_sent (failed last) = false
has_sent (gone last) = true

-- The messages that say that the build has finished.
unfoldable pub is_finish : Frame → Bool
is_finish (begun rsp) = false
is_finish other = false
is_finish (changed u) = elim u.build_finished [ none ↦ false | some _ ↦ true ]

pub won_sent-le-tried : (p : Phase) → weight (won_sent p) ≤ weight (won_tried p)
unfolding won_sent won_tried
won_sent-le-tried waiting = omega arith
won_sent-le-tried counted = omega arith
won_sent-le-tried cancelled = omega arith
won_sent-le-tried (decided last) = omega arith
won_sent-le-tried (sent last) = omega arith
won_sent-le-tried (failed last) = omega arith
won_sent-le-tried (gone last) = omega arith

pub won_tried-le-won : (p : Phase) → weight (won_tried p) ≤ weight (has_won p)
unfolding has_won won_tried
won_tried-le-won waiting = omega arith
won_tried-le-won counted = omega arith
won_tried-le-won cancelled = omega arith
won_tried-le-won (decided last) = omega arith
won_tried-le-won (sent last) = omega arith
won_tried-le-won (failed last) = omega arith
won_tried-le-won (gone last) = omega arith
