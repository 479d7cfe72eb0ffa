-- ===== src/Driver/Rx/Aside.antt =====
-- The receive path leaves the transmit path, the handles and the lifecycle alone.
use smsc95xx_macos.Base.{ℕ, ◌<◌, ◌^◌, ◌≡◌, ◌∙◌, refl, List, arith}
use smsc95xx_macos.Driver.Status.{KernReturn}
use smsc95xx_macos.Driver.Kit.{Kit}
use smsc95xx_macos.Driver.State.{Driver}
use smsc95xx_macos.Driver.Tx.Ledger.{transmit_calls}
use smsc95xx_macos.Driver.Tx.Loop.{OnSome, OnSome-weaken}
use smsc95xx_macos.Driver.Rx.{arm_rx_read, rx_back_off, rx_backoff_expired, rx_completed}
use smsc95xx_macos.Driver.Rx.Beside.{Beside, walk-Beside}
use smsc95xx_macos.Driver.Rx.Tail.{Steady, rx_completed_inv, rx_backoff_expired_inv}

abbrev pub Aside : Driver → Driver → Type 0
Aside s t =
    (t.handles ≡ s.handles)
    × (t.tx ≡ s.tx)
    × (t.life ≡ s.life)
    × (transmit_calls t.history ≡ transmit_calls s.history)

pub Aside-trans : (s t u : Driver) → Aside s t → Aside t u → Aside s u
Aside-trans s t u a b = (b.0 ∙ a.0, b.1 ∙ a.1, b.2 ∙ a.2, b.3 ∙ a.3)

module _ (kit : Kit) where
  arm-Aside : (s : Driver) → Aside s (arm_rx_read kit s).1
  unfolding arm_rx_read transmit_calls
  arm-Aside s = ground arith

  back_off-Aside : (s : Driver) → Aside s (rx_back_off kit s)
  unfolding rx_back_off transmit_calls
  back_off-Aside s = ground arith

  pub Aside-Steady : (s : Driver) → Steady kit (Aside s)
  unfolding transmit_calls
  Aside-Steady s = record {
    counters = λ t x a i. i;
    arm = λ t i. Aside-trans s t (arm_rx_read kit t).1 i (arm-Aside t);
    back_off = λ t i. Aside-trans s t (rx_back_off kit t) i (back_off-Aside t);
    stall = λ t i. i;
  }

  pub rx_backoff_expired-Aside : (s : Driver) → Aside s (rx_backoff_expired kit s)
  rx_backoff_expired-Aside s =
      rx_backoff_expired_inv kit (Aside s) (Aside-Steady s) s (refl, refl, refl, refl)

  -- A bulk IN completion of fewer than 2^62 bytes leaves the handles, the transmit state and the
  -- lifecycle as they were, and makes no call of the transmit path.
  pub rx_completed-Aside :
      (fuel : ℕ) (status : KernReturn) (count : ℕ) (bytes : List ℕ) (s : Driver)
      → count < 2 ^ 62
      → OnSome (Aside s) (rx_completed kit fuel status count bytes s)
  rx_completed-Aside fuel status count bytes s small =
      rx_completed_inv kit (Aside s) (Aside-Steady s) fuel status count bytes s
        (λ t i.
          OnSome-weaken (λ (r : Driver × ℕ). Beside t r.0) (λ (r : Driver × ℕ). Aside s r.0)
            (λ r b. Aside-trans s t r.0 i (b.handles, b.tx, b.life, b.sends)) _
            (walk-Beside kit fuel count bytes t small))
        (refl, refl, refl, refl)
