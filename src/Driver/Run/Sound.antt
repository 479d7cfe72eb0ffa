-- ===== src/Driver/Run/Sound.antt =====
-- Every run keeps the books of both paths, and keeps the transmit path's promise.
use smsc95xx_macos.Base.{ℕ, ◌+◌, ◌≡◌, refl, none}
use smsc95xx_macos.Driver.Kit.{Kit}
use smsc95xx_macos.Driver.State.{Driver}
use smsc95xx_macos.Driver.Tx.Ledger.{TxInv}
use smsc95xx_macos.Driver.Tx.Loop.{OnSome-at}
use smsc95xx_macos.Driver.Tx.Mailbox.{replay, place}
use smsc95xx_macos.Driver.Tx.Callbacks.{Keeps, tx_data_available-Keeps, tx_completed-Keeps}
use smsc95xx_macos.Driver.Rx.Books.{RxBooks}
use smsc95xx_macos.Driver.Rx.Tail.{rx_backoff_expired_inv}
use smsc95xx_macos.Driver.Rx.Arming.{IsArmedOnce, IsArmedOnce-Steady, rx_completed-IsArmedOnce}
use smsc95xx_macos.Driver.Rx.Aside.{
  Aside, Aside-Steady, rx_backoff_expired-Aside, rx_completed-Aside,
}
use smsc95xx_macos.Driver.Rx.Completion.{Settled-Steady, rx_completed-Books}
use smsc95xx_macos.Driver.Interface.Keeping.{set_interface_enable_inv}
use smsc95xx_macos.Driver.Run.{
  Callback, doorbell, write_finished, timer_fired, interface_set, quiesced, Run, begun, then_called,
  then_read,
}
use smsc95xx_macos.Driver.Run.Keeping.{
  Aside-TxInv, SameRest-Books, SameRest-IsArmedOnce, Aside-Unaffected, Settled-Unaffected,
  IsArmedOnce-Unaffected,
}
use smsc95xx_macos.Driver.Interface.Quiescing.{
  quiesce_datapath-TxInv, quiesce_datapath-Books, quiesce_datapath-IsArmedOnce,
}

-- The books of both paths are in order, and of the reads accepted all but at most one have finished.
pub record Sound (finished : ℕ) (s : Driver) : Type 0 where
  pub transmit : TxInv s
  pub receive : RxBooks 0 none s
  pub reads : IsArmedOnce finished s

module _ (kit : Kit) where
  after_transmit : (n : ℕ) (s t : Driver) → Keeps s t → Sound n s → Sound n t
  after_transmit n s t k v = record {
    transmit = k.books;
    receive = SameRest-Books s t k.rest v.receive;
    reads = SameRest-IsArmedOnce n s t k.rest v.reads;
  }

  Callback-Sound : (n : ℕ) (s t : Driver) → Callback kit s t → Sound n s → Sound n t
  Callback-Sound n _ _ (doorbell fuel s t e) v =
      after_transmit n s t (OnSome-at (Keeps s) t (tx_data_available-Keeps kit fuel s v.transmit) e)
        v
  Callback-Sound n _ _ (write_finished fuel status count s t e) v =
      after_transmit n s t
        (OnSome-at (Keeps s) t (tx_completed-Keeps kit fuel status count s v.transmit) e) v
  Callback-Sound n _ _ (timer_fired s) v = record {
    transmit = Aside-TxInv s _ (rx_backoff_expired-Aside kit s) v.transmit;
    receive = rx_backoff_expired_inv kit (RxBooks 0 none) (Settled-Steady kit) s v.receive;
    reads = rx_backoff_expired_inv kit (IsArmedOnce n) (IsArmedOnce-Steady kit n) s v.reads;
  }
  Callback-Sound n _ _ (interface_set enable s) v = record {
    transmit =
        Aside-TxInv s _
          (set_interface_enable_inv kit (Aside s) (Aside-Steady kit s) (Aside-Unaffected s) enable s
            (refl, refl, refl, refl))
          v.transmit;
    receive =
        set_interface_enable_inv kit (RxBooks 0 none) (Settled-Steady kit) Settled-Unaffected enable
          s v.receive;
    reads =
        set_interface_enable_inv kit (IsArmedOnce n) (IsArmedOnce-Steady kit n)
          (IsArmedOnce-Unaffected n) enable s v.reads;
  }
  Callback-Sound n _ _ (quiesced s) v = record {
    transmit = quiesce_datapath-TxInv kit s v.transmit;
    receive = quiesce_datapath-Books kit s v.receive;
    reads = quiesce_datapath-IsArmedOnce kit n s v.reads;
  }

  -- If the books of both paths are in order and no read is outstanding, then they are in order after
  -- any sequence of doorbells, completions of writes and of outstanding reads, timer expiries, enabling
  -- and disabling of the interface, and quiescing: packets dequeued are packets returned, lost and in
  -- flight; records are frames and drops; each packet was handed back as often as taken; and of the
  -- reads accepted at most one is unfinished, as the flag tells.
  pub Run-Sound :
      (first : Driver) → Sound 0 first → (n : ℕ) (s : Driver) → Run kit first n s → Sound n s
  Run-Sound first v _ _ begun = v
  Run-Sound first v _ _ (then_called n s t r c) = Callback-Sound n s t c (Run-Sound first v n s r)
  Run-Sound first v _ _ (then_read n fuel status count bytes s t r small armed e) =
      let w = Run-Sound first v n s r in
      record {
        transmit =
            Aside-TxInv s t
              (OnSome-at (Aside s) t (rx_completed-Aside kit fuel status count bytes s small) e)
              w.transmit;
        receive =
            OnSome-at (RxBooks 0 none) t
              (rx_completed-Books kit fuel status count bytes s small w.receive) e;
        reads =
            OnSome-at (IsArmedOnce (n + 1)) t
              (rx_completed-IsArmedOnce kit fuel status count bytes n s small armed w.reads) e;
      }

  -- The transmit path implements a mailbox of one place: over any run from a driver whose books are in
  -- order, the calls that it made to dequeue packets, to start transfers and to hand packets back are
  -- moves of that machine, none of them a breach, and lead it to the place that the driver's record of
  -- its packet stands for.
  pub Run-mailbox :
      (first : Driver)
      → Sound 0 first
      → (n : ℕ) (s : Driver) → Run kit first n s
      → replay s.history ≡ place s.tx.tx_packet
  Run-mailbox first v n s r = (Run-Sound first v n s r).transmit.mailbox
