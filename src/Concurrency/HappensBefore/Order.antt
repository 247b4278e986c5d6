-- ===== src/Concurrency/HappensBefore/Order.antt =====
-- One `Before` and one `Happen` of a key at rest, in either order.
use distbuild.Common.{
  refl, ◌≡◌, true, false, some, lookup, insert, lookup-insert_self, pos, returns, blocks, arith,
}
use distbuild.Concurrency.HappensBefore.{
  Machine, or_nothing, or_open, is_waiting, is_nothing, level, is_closed, store, happen, before,
  wake, before_call, new_machine,
}

module _ {K : Type 0} (key_discrete : Discrete K) where
  pub record Rests (h : Machine K) (key : K) : Type 0 where
    pub nothing : level key_discrete h key ≡ pos 1
    pub still_open : is_closed key_discrete h key ≡ false

  pub new_machine-Rests : (key : K) → Rests new_machine key
  unfolding new_machine level is_closed or_nothing or_open lookup
  new_machine-Rests key = record { nothing = refl; still_open = refl }

  -- After the event of a key at rest `Before` returns.
  pub before_call-happen :
      (key : K) (h : Machine K)
      → Rests h key
      → (a : Machine K) × (b : Machine K) × (happen key_discrete key h ≡ returns a)
        × (before_call key_discrete key a ≡ returns b)
  unfolding happen before before_call level is_closed store or_nothing or_open is_waiting is_nothing
  before_call-happen key h rests =
      let two = lookup-insert_self key_discrete h.was key (pos 2) in
      (
        store key_discrete key (pos 2) h,
        store key_discrete key (pos 1) (store key_discrete key (pos 2) h),
        ground (arith, rests.nothing, rests.still_open),
        ground (arith, two),
      )

  -- A key at rest: when the event comes first `Before` does not wait, and when `Before` comes first it
  -- waits until the event has happened. In either order the key is at rest again afterwards.
  pub before-happen :
      (key : K) (h : Machine K)
      → Rests h key
      → ((a : Machine K) × (b : Machine K) × (happen key_discrete key h ≡ returns a)
          × (before key_discrete key a ≡ (false, b))
          × Rests b key)
        × ((a : Machine K) × (b : Machine K) × (c : Machine K) × (before key_discrete key h
              ≡ (true, a))
            × (wake key_discrete key a ≡ blocks)
            × (happen key_discrete key a ≡ returns b)
            × (wake key_discrete key b ≡ returns c)
            × Rests c key)
  unfolding happen before wake level is_closed store or_nothing or_open is_waiting is_nothing
  before-happen key h rests = (
    (
      store key_discrete key (pos 2) h,
      store key_discrete key (pos 1) (store key_discrete key (pos 2) h),
      ground (arith, rests.nothing, rests.still_open),
      ground (arith, two),
      record {
        nothing = ground (
          arith,
          lookup-insert_self key_discrete (insert key_discrete h.was key (pos 2)) key (pos 1),
        );
        still_open = rests.still_open;
      },
    ),
    (
      waiting,
      woken,
      record woken { closed = insert key_discrete woken.closed key false },
      ground (arith, rests.nothing),
      ground (arith, rests.still_open),
      ground (arith, zero_level, rests.still_open),
      ground (arith, closed_now),
      record {
        nothing = ground (arith, lookup-insert_self key_discrete waiting.was key (pos 1));
        still_open = ground (arith, lookup-insert_self key_discrete woken.closed key false);
      },
    ),
  )
    where
      waiting : Machine K
      waiting = store key_discrete key (pos 0) h

      woken : Machine K
      woken = record (store key_discrete key (pos 1) waiting) {
        closed = insert key_discrete h.closed key true;
      }

      two : lookup key_discrete (insert key_discrete h.was key (pos 2)) key ≡ some (pos 2)
      two = lookup-insert_self key_discrete h.was key (pos 2)

      zero_level : lookup key_discrete (insert key_discrete h.was key (pos 0)) key ≡ some (pos 0)
      zero_level = lookup-insert_self key_discrete h.was key (pos 0)

      closed_now : lookup key_discrete (insert key_discrete h.closed key true) key ≡ some true
      closed_now = lookup-insert_self key_discrete h.closed key true
