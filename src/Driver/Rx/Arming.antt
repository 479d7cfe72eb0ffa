-- ===== src/Driver/Rx/Arming.antt =====
-- Arming the bulk IN read: the reads that the pipe accepted, against the flag.
use smsc95xx_macos.Base.{ℕ, ◌+◌, ◌^◌, ◌<◌, ◌≡◌, true, List, if◌then◌else◌, arith}
use smsc95xx_macos.Driver.Status.{KernReturn, is_success}
use smsc95xx_macos.Driver.Kit.{Kit}
use smsc95xx_macos.Driver.State.{Driver}
use smsc95xx_macos.Driver.Tx.Loop.{OnSome, OnSome-weaken}
use smsc95xx_macos.Driver.Rx.{arm_rx_read, rx_back_off, rx_completed}
use smsc95xx_macos.Driver.Rx.Tail.{Steady, rx_completed_inv}
use smsc95xx_macos.Driver.Rx.Beside.{accepted, Beside, walk-Beside}

-- Of the reads that the pipe accepted, `finished` have completed, and one more is outstanding where
-- the flag says so.
abbrev pub IsArmedOnce : ℕ → Driver → Type 0
IsArmedOnce finished s = accepted s.history ≡ finished + (if s.rx.rx_armed then 1 else 0)

module _ (kit : Kit) where
  arm-IsArmedOnce : (n : ℕ) (s : Driver) → IsArmedOnce n s → IsArmedOnce n (arm_rx_read kit s).1
  unfolding arm_rx_read accepted
  arm-IsArmedOnce n s i = ground arith

  pub arm_rx_read-armed :
      (s : Driver)
      → is_success (arm_rx_read kit s).0 ≡ true
      → ((arm_rx_read kit s).1.rx.rx_running ≡ s.rx.rx_running)
        × ((arm_rx_read kit s).1.rx.rx_armed ≡ true)
  unfolding arm_rx_read is_success
  arm_rx_read-armed s h = ground (arith, h)

  back_off-IsArmedOnce : (n : ℕ) (s : Driver) → IsArmedOnce n s → IsArmedOnce n (rx_back_off kit s)
  unfolding rx_back_off accepted
  back_off-IsArmedOnce n s i = ground arith

  pub IsArmedOnce-Steady : (n : ℕ) → Steady kit (IsArmedOnce n)
  IsArmedOnce-Steady n = record {
    counters = λ s x a i. ground (arith, i, a.0);
    arm = arm-IsArmedOnce n;
    back_off = back_off-IsArmedOnce n;
    stall = λ s i. unfold accepted in omega (arith, i);
  }

  -- If of the reads accepted so far all but one had completed, and that one is outstanding, then after
  -- its completion, of any status, length (below 2^62) and content, at most one read is outstanding,
  -- and the flag tells whether one is.
  pub rx_completed-IsArmedOnce :
      (fuel : ℕ) (status : KernReturn) (count : ℕ) (bytes : List ℕ) (finished : ℕ) (s : Driver)
      → count < 2 ^ 62
      → s.rx.rx_armed ≡ true
      → IsArmedOnce finished s
      → OnSome (IsArmedOnce (finished + 1)) (rx_completed kit fuel status count bytes s)
  rx_completed-IsArmedOnce fuel status count bytes finished s small armed i =
      rx_completed_inv kit (IsArmedOnce (finished + 1)) (IsArmedOnce-Steady (finished + 1)) fuel
        status count bytes s
        (λ t j.
          OnSome-weaken (λ (r : Driver × ℕ). Beside t r.0)
            (λ (r : Driver × ℕ). IsArmedOnce (finished + 1) r.0)
            (λ r b. ground (arith, b.armed, b.reads, j)) _
            (walk-Beside kit fuel count bytes t small))
        (ground (arith, i, armed))
