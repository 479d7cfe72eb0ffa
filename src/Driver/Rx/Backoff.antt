-- ===== src/Driver/Rx/Backoff.antt =====
-- When the receive path asks for a read, and when it must not.
use smsc95xx_macos.Base.{
  ℕ, ◌+◌, ◌-◌, ◌^◌, ◌≤◌, ◌<◌, ◌≡◌, refl, Bool, true, false, not, ◌&&◌, List, ◌∷◌, leb, if-cases,
  incr, u64, ◌⊎◌, inl, inr, arith,
}
use smsc95xx_macos.Driver.Status.{KernReturn, is_success}
use smsc95xx_macos.Driver.Kit.{Kit, wake_at}
use smsc95xx_macos.Driver.State.{Driver}
use smsc95xx_macos.Driver.Tx.Loop.{OnSome}
use smsc95xx_macos.Driver.Rx.Beside.{accepted}
use smsc95xx_macos.Driver.Rx.{
  arm_rx_read, rearm_after_data, rx_back_off, rearm_after_nothing, rearm_rx_read,
  rx_backoff_expired, rx_dispatch, rx_completed, rx_idle_run_limit,
}

module _ (kit : Kit) where
  -- From the ninth empty completion in a row on, re-arming asks for no read: the only call that it can
  -- make is the timer's, for 100 ms after the clock.
  pub rearm-backs_off :
      (s : Driver)
      → 8 ≤ s.rx.rx_idle_run
      → s.rx.rx_idle_run < 2 ^ 64 - 1
      → ((rearm_rx_read kit false s).history ≡ s.history)
        ⊎ ((ret : KernReturn) × ((rearm_rx_read kit false s).history
              ≡ wake_at (u64 (kit.clock s.history + 100000000)) ret ∷ s.history))
  unfolding rearm_rx_read rearm_after_nothing rx_back_off
  rearm-backs_off s long below =
      let deadline = u64 (kit.clock s.history + 100000000) in
      let P = λ (t : Driver).
        (t.history ≡ s.history)
        ⊎ ((ret : KernReturn) × (t.history ≡ wake_at deadline ret ∷ s.history)) in
      if-cases P (leb (incr s.rx.rx_idle_run) rx_idle_run_limit) _ _
        (λ few. absurd (ground (arith, few)))
        (λ many.
          if-cases P (not s.handles.rx_backoff_timer) _ _ (λ _. inl refl)
            (λ timer.
              if-cases P (not (is_success (kit.wake s.history deadline))) _ _ (λ _. inr (_, refl))
                (λ woke.
                  if-cases P (not s.rx.rx_backoff_active) _ _ (λ _. inr (_, refl))
                    (λ _. inr (_, refl)))))

  -- With the driver not stopping, the datapath there, and a pipe that accepts, a re-arm after data leaves
  -- a read outstanding, no idle run, and no backoff.
  pub rearm-after_data_lem :
      (s : Driver)
      → s.life.stopping ≡ false
      → (s.handles.pipe_in && s.handles.rx_action && s.handles.rx_buffer) ≡ true
      → is_success (kit.read_in s.history) ≡ true
      → ((rearm_rx_read kit true s).rx.rx_armed ≡ true)
        × ((rearm_rx_read kit true s).rx.rx_idle_run ≡ 0)
        × ((rearm_rx_read kit true s).rx.rx_backoff_active ≡ false)
  unfolding rearm_rx_read rearm_after_data arm_rx_read
  rearm-after_data_lem s a b c = ground arith

  -- With receive not running, a completion of any status and content makes no call: it delivers
  -- nothing and asks for no further read, nor does the backoff timer.
  pub rx_completed-stopped :
      (fuel count : ℕ) (status : KernReturn) (bytes : List ℕ) (s : Driver)
      → s.rx.rx_running ≡ false
      → ((rx_backoff_expired kit s).history ≡ s.history)
        × OnSome
            (λ (t : Driver). (t.history ≡ s.history) × (t.rx.rx_armed ≡ false))
            (rx_completed kit fuel status count bytes s)
  unfolding rx_completed rx_dispatch rx_backoff_expired
  rx_completed-stopped fuel count status bytes s e = ground arith

  -- With receive not running, neither the timer nor a completion starts it.
  pub rx_completed-still :
      (fuel count : ℕ) (status : KernReturn) (bytes : List ℕ) (s : Driver)
      → s.rx.rx_running ≡ false
      → ((rx_backoff_expired kit s).rx.rx_running ≡ false)
        × OnSome
            (λ (t : Driver). t.rx.rx_running ≡ false)
            (rx_completed kit fuel status count bytes s)
  unfolding rx_completed rx_dispatch rx_backoff_expired
  rx_completed-still fuel count status bytes s e = ground arith

  -- While the driver is stopping, neither the timer nor a completion with data gets a read accepted, and
  -- a completion without data does not either.
  pub rearm-stopping :
      (b : Bool) (s : Driver)
      → s.life.stopping ≡ true
      → (accepted (rx_backoff_expired kit s).history ≡ accepted s.history)
        × (accepted (rearm_rx_read kit b s).history ≡ accepted s.history)
  unfolding rearm_rx_read rearm_after_data rearm_after_nothing arm_rx_read rx_back_off
      rx_backoff_expired accepted
  rearm-stopping true s e = ground arith
  rearm-stopping false s e = ground arith
