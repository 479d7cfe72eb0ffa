-- ===== src/Driver/Life/Carrying.antt =====
-- What every callback carries over, early or late.
use smsc95xx_macos.Base.{ℕ, ◌<◌, ◌^◌, ◌≡◌, ◌∙◌, refl, ap, true, false, some, List, []}
use smsc95xx_macos.Driver.Status.{KernReturn}
use smsc95xx_macos.Driver.Kit.{Kit}
use smsc95xx_macos.Driver.State.{Driver, Lifecycle, Receive}
use smsc95xx_macos.Driver.Tx.Ledger.{TxInv}
use smsc95xx_macos.Driver.Tx.Loop.{OnSome-at}
use smsc95xx_macos.Driver.Tx.Callbacks.{Keeps, tx_data_available-Keeps, tx_completed-Keeps}
use smsc95xx_macos.Driver.Rx.{rx_completed}
use smsc95xx_macos.Driver.Rx.Backoff.{rx_completed-still}
use smsc95xx_macos.Driver.Rx.Aside.{
  Aside, Aside-Steady, rx_backoff_expired-Aside, rx_completed-Aside,
}
use smsc95xx_macos.Driver.Interface.Keeping.{set_interface_enable_inv}
use smsc95xx_macos.Driver.Interface.Enabling.{set_interface_enable-still}
use smsc95xx_macos.Driver.Interface.Quiescing.{quiesce_datapath-TxInv, quiesce_datapath-shuts}
use smsc95xx_macos.Driver.Run.{
  Callback, doorbell, write_finished, timer_fired, interface_set, quiesced,
}
use smsc95xx_macos.Driver.Run.Keeping.{Aside-TxInv, Aside-Unaffected}

-- Teardown has begun, and the receive loop does not run.
abbrev pub IsStill : Driver → Type 0
IsStill s = (s.life.stopping ≡ true) × (s.rx.rx_running ≡ false)

-- The transmit books of `t` are in order, its pointers are those of `s`, and it is as still.
pub record Carried (s t : Driver) : Type 0 where
  pub books : TxInv t
  pub handles : t.handles ≡ s.handles
  pub opened : t.life.interface_opened ≡ s.life.interface_opened
  pub still : IsStill s → IsStill t

Aside-Carried :
    (s t : Driver) → TxInv s → Aside s t → (IsStill s → t.rx.rx_running ≡ false) → Carried s t
Aside-Carried s t v a off = record {
  books = Aside-TxInv s t a v;
  handles = a.0;
  opened = ap (λ (k : Lifecycle). k.interface_opened) a.2;
  still = λ q. (ap (λ (k : Lifecycle). k.stopping) a.2 ∙ q.0, off q);
}

Keeps-Carried : (s t : Driver) → Keeps s t → Carried s t
Keeps-Carried s t k = record {
  books = k.books;
  handles = k.rest.0;
  opened = ap (λ (l : Lifecycle). l.interface_opened) k.rest.2;
  still = λ q. (
    ap (λ (l : Lifecycle). l.stopping) k.rest.2 ∙ q.0,
    ap (λ (r : Receive). r.rx_running) k.rest.1 ∙ q.1,
  );
}

module _ (kit : Kit) where
  pub Callback-Carried : (s t : Driver) → Callback kit s t → TxInv s → Carried s t
  Callback-Carried _ _ (doorbell fuel s t e) v =
      Keeps-Carried s t (OnSome-at (Keeps s) t (tx_data_available-Keeps kit fuel s v) e)
  Callback-Carried _ _ (write_finished fuel status count s t e) v =
      Keeps-Carried s t (OnSome-at (Keeps s) t (tx_completed-Keeps kit fuel status count s v) e)
  Callback-Carried _ _ (timer_fired s) v =
      Aside-Carried s _ v (rx_backoff_expired-Aside kit s)
        (λ q. (rx_completed-still kit 0 0 KernReturn.success [] s q.1).0)
  Callback-Carried _ _ (interface_set b s) v =
      Aside-Carried s _ v
        (set_interface_enable_inv kit (Aside s) (Aside-Steady kit s) (Aside-Unaffected s) b s
          (refl, refl, refl, refl))
        (λ q. set_interface_enable-still kit b s q.0 q.1)
  Callback-Carried _ _ (quiesced s) v =
      let q = quiesce_datapath-shuts kit s in
      record {
        books = quiesce_datapath-TxInv kit s v;
        handles = q.3;
        opened = q.2;
        still = λ _. (q.1, q.0);
      }

  pub rx_completed-Carried :
      (fuel : ℕ) (status : KernReturn) (count : ℕ) (bytes : List ℕ) (s t : Driver)
      → count < 2 ^ 62
      → rx_completed kit fuel status count bytes s ≡ some t
      → TxInv s
      → Carried s t
  rx_completed-Carried fuel status count bytes s t small e v =
      Aside-Carried s t v
        (OnSome-at (Aside s) t (rx_completed-Aside kit fuel status count bytes s small) e)
        (λ q.
          OnSome-at (λ (u : Driver). u.rx.rx_running ≡ false) t
            (rx_completed-still kit fuel count status bytes s q.1).1 e)
