-- ===== src/Driver/Rx/Completion.antt =====
-- The books of the receive path across a whole completion.
use smsc95xx_macos.Base.{ℕ, ◌^◌, ◌<◌, none, List, arith}
use smsc95xx_macos.Driver.Status.{KernReturn}
use smsc95xx_macos.Driver.Kit.{Kit}
use smsc95xx_macos.Driver.State.{Driver}
use smsc95xx_macos.Driver.Tx.Loop.{OnSome}
use smsc95xx_macos.Driver.Rx.{arm_rx_read, rx_back_off, rx_completed}
use smsc95xx_macos.Driver.Rx.Tail.{Steady, rx_completed_inv}
use smsc95xx_macos.Driver.Rx.Books.{RxBooks, acquired, disposed}
use smsc95xx_macos.Driver.Rx.Custody.{rx_walk-Books}

module _ (kit : Kit) where
  abbrev pub Settled : Driver → Type 0
  Settled = RxBooks 0 none

  arm-Books : (s : Driver) → Settled s → Settled (arm_rx_read kit s).1
  unfolding arm_rx_read
  arm-Books s b = record {
    identity = ground (arith, b.identity);
    reasons = ground (arith, b.reasons);
    custody = λ p. unfold acquired disposed in ground (arith, b.custody p);
  }

  back_off-Books : (s : Driver) → Settled s → Settled (rx_back_off kit s)
  unfolding rx_back_off
  back_off-Books s b = record {
    identity = ground (arith, b.identity);
    reasons = ground (arith, b.reasons);
    custody = λ p. unfold acquired disposed in ground (arith, b.custody p);
  }

  pub Settled-Steady : Steady kit Settled
  Settled-Steady = record {
    counters = λ s x a b. record {
      identity = omega (arith, a.1, a.2, a.3, b.identity);
      reasons = omega (arith, a.3, a.4, b.reasons);
      custody = b.custody;
    };
    arm = arm-Books;
    back_off = back_off-Books;
    stall = λ s b. record {
      identity = b.identity;
      reasons = b.reasons;
      custody = λ p. unfold acquired disposed in omega (arith, b.custody p);
    };
  }

  -- If the books of the receive path are in order, they are so after a completion of any status, length
  -- (below 2^62) and content: records are frames and drops, drops are the sum of their reasons, modulo
  -- 2^64, and each packet acquired was delivered or handed to the pool exactly as often.
  pub rx_completed-Books :
      (fuel : ℕ) (status : KernReturn) (count : ℕ) (bytes : List ℕ) (s : Driver)
      → count < 2 ^ 62
      → RxBooks 0 none s
      → OnSome (RxBooks 0 none) (rx_completed kit fuel status count bytes s)
  rx_completed-Books fuel status count bytes s small b =
      rx_completed_inv kit Settled Settled-Steady fuel status count bytes s
        (λ t c. rx_walk-Books kit fuel count bytes t small c)
        (record { identity = b.identity; reasons = b.reasons; custody = b.custody })
