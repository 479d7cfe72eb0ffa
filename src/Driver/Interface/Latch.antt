-- ===== src/Driver/Interface/Latch.antt =====
-- Teardown as a latch: what every later callback does once the datapath is quiesced.
use smsc95xx_macos.Base.{ℕ, ◌≡◌, refl, true, false, ◌&&◌, List, if-cases, arith}
use smsc95xx_macos.Driver.Status.{KernReturn}
use smsc95xx_macos.Driver.Kit.{Kit}
use smsc95xx_macos.Driver.State.{Driver}
use smsc95xx_macos.Driver.Tx.{tx_data_available}
use smsc95xx_macos.Driver.Tx.Loop.{OnSome}
use smsc95xx_macos.Driver.Tx.Drain.{tx_data_available-closed}
use smsc95xx_macos.Driver.Rx.{rx_completed, rx_backoff_expired}
use smsc95xx_macos.Driver.Rx.Backoff.{rx_completed-stopped}
use smsc95xx_macos.Driver.Interface.{set_interface_enable, quiesce_datapath}

module _ (kit : Kit) where
  -- What teardown latches.
  abbrev pub IsQuiet : Driver → Type 0
  IsQuiet s =
      (s.life.stopping ≡ true) × (s.rx.rx_running ≡ false) × (s.tx.tx_datapath_ready ≡ false)

  pub quiesce-IsQuiet : (s : Driver) → IsQuiet (quiesce_datapath kit s)
  unfolding quiesce_datapath
  quiesce-IsQuiet s = ground arith

  enable-refused :
      (s : Driver)
      → s.life.stopping ≡ true
      → set_interface_enable kit true s ≡ (KernReturn.offline, s)
  unfolding set_interface_enable
  enable-refused s e =
      if-cases (λ (r : KernReturn × Driver). r ≡ (KernReturn.offline, s)) (true && s.life.stopping)
        _ _ (λ _. refl) (λ n. absurd (ground (arith, e, n)))

  -- Once the datapath is quiesced, an enable is refused as offline and changes nothing, and a doorbell,
  -- the backoff timer, and a bulk IN completion of any status and content make no call: nothing is
  -- taken off a queue, delivered, sent, or armed.
  pub quiesce_datapath-latches :
      (s : Driver) (fuel count : ℕ) (status : KernReturn) (bytes : List ℕ)
      → let q = quiesce_datapath kit s in
        (set_interface_enable kit true q ≡ (KernReturn.offline, q))
        × OnSome
            (λ (t : Driver). (t.history ≡ q.history) × (t.tx.tx_in_flight ≡ q.tx.tx_in_flight))
            (tx_data_available kit fuel q)
        × ((rx_backoff_expired kit q).history ≡ q.history)
        × OnSome
            (λ (t : Driver). (t.history ≡ q.history) × (t.rx.rx_armed ≡ false))
            (rx_completed kit fuel status count bytes q)
  quiesce_datapath-latches s fuel count status bytes =
      let q = quiesce_datapath kit s in
      let (stopping, still, shut) = quiesce-IsQuiet s in
      let (timer, completion) = rx_completed-stopped kit fuel count status bytes q still in
      (enable-refused q stopping, tx_data_available-closed kit fuel q shut, timer, completion)
