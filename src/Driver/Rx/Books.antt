-- ===== src/Driver/Rx/Books.antt =====
-- The books of the receive path: the counters of records, frames and drops, and what became of each
-- packet taken to receive into.
use smsc95xx_macos.Base.{
  ℕ, ◌+◌, ◌≡◌, refl, ◌&&◌, Option, [], ◌∷◌, ◌==◌, if◌then◌else◌, incr, u64, arith,
}
use smsc95xx_macos.Driver.Status.{is_success}
use smsc95xx_macos.Driver.Kit.{
  Event, History, rx_dequeue, rx_enqueue, pool_allocate, pool_deallocate,
}
use smsc95xx_macos.Driver.State.{Driver, Receive}
use smsc95xx_macos.Driver.Tx.Ledger.{held}
use smsc95xx_macos.Driver.Rx.{
  drop_record, for_err_sum, for_short, for_oversize, for_no_buffer, for_bad_addr, for_bad_fit,
  for_set_len, for_enqueue,
}

abbrev pub acquires : ℕ → Event → ℕ
acquires p (rx_dequeue n q) = if n == 1 then held p q else 0
acquires p (pool_allocate r q) = if is_success r then held p q else 0
acquires p _ = 0

abbrev pub disposes : ℕ → Event → ℕ
disposes p (rx_enqueue q r) = if is_success r && q == p then 1 else 0
disposes p (pool_deallocate q r) = if q == p then 1 else 0
disposes p _ = 0

-- How often `p` was taken to receive into, and delivered or handed to the pool.
unfoldable pub acquired : ℕ → History → ℕ
acquired p [] = 0
acquired p (e ∷ h) = acquires p e + acquired p h

unfoldable pub disposed : ℕ → History → ℕ
disposed p [] = 0
disposed p (e ∷ h) = disposes p e + disposed p h

-- The sum of the reasons.
abbrev pub drop_sum : Receive → ℕ
drop_sum r =
    r.rx_drop_err_sum + r.rx_drop_short + r.rx_drop_oversize + r.rx_drop_no_buffer
    + r.rx_drop_bad_addr + r.rx_drop_bad_fit + r.rx_drop_set_len + r.rx_drop_enqueue

-- Records are frames and drops, and `pending` more; drops are the sum of their reasons; and each packet
-- was disposed of as often as acquired, but for the one at hand.
pub record RxBooks (pending : ℕ) (at_hand : Option ℕ) (s : Driver) : Type 0 where
  pub identity : s.rx.rx_records ≡ u64 (s.rx.rx_frames + s.rx.rx_dropped + pending)
  pub reasons : s.rx.rx_dropped ≡ u64 (drop_sum s.rx)
  pub custody : (p : ℕ) → acquired p s.history ≡ disposed p s.history + held p at_hand

-- A reason counts one drop, and nothing else of the identity.
pub record IsReason (f : Receive → Receive) : Type 0 where
  records : (r : Receive) → (f r).rx_records ≡ r.rx_records
  frames : (r : Receive) → (f r).rx_frames ≡ r.rx_frames
  dropped : (r : Receive) → (f r).rx_dropped ≡ r.rx_dropped
  one_more : (r : Receive) → u64 (drop_sum (f r)) ≡ u64 (drop_sum r + 1)

pub drop-Books :
    {f : Receive → Receive} (o : Option ℕ) (s : Driver)
    → IsReason f
    → RxBooks 1 o s
    → RxBooks 0 o (drop_record f s)
drop-Books {f} o s i b =
    let r1 = record s.rx { rx_dropped = incr s.rx.rx_dropped } in
    record {
      identity = omega (arith, i.records r1, i.frames r1, i.dropped r1, b.identity);
      reasons = omega (arith, i.dropped r1, i.one_more r1, b.reasons);
      custody = b.custody;
    }

pub for_err_sum-IsReason : IsReason for_err_sum
for_err_sum-IsReason = record {
  records = λ r. refl;
  frames = λ r. refl;
  dropped = λ r. refl;
  one_more = λ r. omega arith;
}

pub for_short-IsReason : IsReason for_short
for_short-IsReason = record {
  records = λ r. refl;
  frames = λ r. refl;
  dropped = λ r. refl;
  one_more = λ r. omega arith;
}

pub for_oversize-IsReason : IsReason for_oversize
for_oversize-IsReason = record {
  records = λ r. refl;
  frames = λ r. refl;
  dropped = λ r. refl;
  one_more = λ r. omega arith;
}

pub for_no_buffer-IsReason : IsReason for_no_buffer
for_no_buffer-IsReason = record {
  records = λ r. refl;
  frames = λ r. refl;
  dropped = λ r. refl;
  one_more = λ r. omega arith;
}

pub for_bad_addr-IsReason : IsReason for_bad_addr
for_bad_addr-IsReason = record {
  records = λ r. refl;
  frames = λ r. refl;
  dropped = λ r. refl;
  one_more = λ r. omega arith;
}

pub for_bad_fit-IsReason : IsReason for_bad_fit
for_bad_fit-IsReason = record {
  records = λ r. refl;
  frames = λ r. refl;
  dropped = λ r. refl;
  one_more = λ r. omega arith;
}

pub for_set_len-IsReason : IsReason for_set_len
for_set_len-IsReason = record {
  records = λ r. refl;
  frames = λ r. refl;
  dropped = λ r. refl;
  one_more = λ r. omega arith;
}

pub for_enqueue-IsReason : IsReason for_enqueue
for_enqueue-IsReason = record {
  records = λ r. refl;
  frames = λ r. refl;
  dropped = λ r. refl;
  one_more = λ r. omega arith;
}
