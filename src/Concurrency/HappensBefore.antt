-- ===== src/Concurrency/HappensBefore.antt =====
-- pkg/concurrency/hb.go. The counter of a key is 0 while a `Before` waits, 1 at rest and 2 when the
-- event has happened; `closed` says that the channel of the key is closed.
pub mod Order
pub mod Tests
use distbuild.Common.{
  ℕ, zero, suc, ◌≡◌, Bool, true, false, Option, none, some, [], Dict, lookup, insert, if◌then◌else◌,
  ℤ, pos, negsuc, inc, dec, Outcome, returns, panics, blocks,
}

pub record Machine (K : Type 0) : Type 0 where
  pub was : Dict K ℤ
  pub closed : Dict K Bool

pub new_machine : {K : Type 0} → Machine K
new_machine = record { was = []; closed = [] }

-- `create` stores 1 and an open channel for a new key.
pub or_nothing : Option ℤ → ℤ
or_nothing none = pos 1
or_nothing (some n) = n

pub or_open : Option Bool → Bool
or_open none = false
or_open (some b) = b

is_waiting : ℤ → Bool
is_waiting (pos zero) = true
is_waiting (pos (suc n)) = false
is_waiting (negsuc n) = false

is_nothing : ℤ → Bool
is_nothing (pos zero) = false
is_nothing (pos (suc zero)) = true
is_nothing (pos (suc (suc n))) = false
is_nothing (negsuc n) = false

module _ {K : Type 0} (key_discrete : Discrete K) where
  pub level : Machine K → K → ℤ
  level h key = or_nothing (lookup key_discrete h.was key)

  pub is_closed : Machine K → K → Bool
  is_closed h key = or_open (lookup key_discrete h.closed key)

  store : K → ℤ → Machine K → Machine K
  store key n h = record h { was = insert key_discrete h.was key n }

  -- `Happen`, the event having been run: closing a closed channel panics.
  pub happen : K → Machine K → Outcome (Machine K)
  happen key h =
      let n = inc (level h key) in
      let h' = store key n h in
      if is_nothing n
      then (if is_closed h key
          then panics
          else returns (record h' { closed = insert key_discrete h.closed key true }))
      else returns h'

  -- `Before` up to its wait. The flag says that it waits.
  pub before : K → Machine K → Bool × Machine K
  before key h = let n = dec (level h key) in (is_waiting n, store key n h)

  -- The end of the wait: the channel is closed, and a new one takes its place.
  pub wake : K → Machine K → Outcome (Machine K)
  wake key h =
      if is_closed h key
      then returns (record h { closed = insert key_discrete h.closed key false })
      else blocks

  -- The whole of `Before`, where the state does not change until it returns.
  pub before_call : K → Machine K → Outcome (Machine K)
  before_call key h = let (waits, h') = before key h in if waits then wake key h' else returns h'
