-- ===== src/Driver/Interface/Quiescing.antt =====
-- quiesceDatapath and the books.
use smsc95xx_macos.Base.{◌≡◌, true, false, true, false, ℕ, none, arith}
use smsc95xx_macos.Driver.Kit.{Kit}
use smsc95xx_macos.Driver.State.{Driver}
use smsc95xx_macos.Driver.Tx.Ledger.{TxInv, taken, given}
use smsc95xx_macos.Driver.Tx.Mailbox.{replay, advance}
use smsc95xx_macos.Driver.Rx.Books.{RxBooks, acquired, disposed}
use smsc95xx_macos.Driver.Rx.Beside.{accepted}
use smsc95xx_macos.Driver.Rx.Arming.{IsArmedOnce}
use smsc95xx_macos.Driver.Interface.{quiesce_datapath}

-- Closing the datapath for teardown keeps all of the books.
module _ (kit : Kit) where
  pub quiesce_datapath-TxInv : (s : Driver) → TxInv s → TxInv (quiesce_datapath kit s)
  unfolding quiesce_datapath taken given replay advance
  quiesce_datapath-TxInv s v = record {
    ledger = record {
      flag = ground (arith, v.ledger.flag);
      balance = ground (arith, v.ledger.balance);
    };
    queue = λ h. ground (arith, v.queue, h);
    once = λ p. ground (arith, v.once p);
    mailbox = ground (arith, v.mailbox);
  }

  pub quiesce_datapath-Books :
      (s : Driver) → RxBooks 0 none s → RxBooks 0 none (quiesce_datapath kit s)
  unfolding quiesce_datapath acquired disposed
  quiesce_datapath-Books s b = record {
    identity = ground (arith, b.identity);
    reasons = ground (arith, b.reasons);
    custody = λ p. ground (arith, b.custody p);
  }

  pub quiesce_datapath-IsArmedOnce :
      (n : ℕ) (s : Driver) → IsArmedOnce n s → IsArmedOnce n (quiesce_datapath kit s)
  unfolding quiesce_datapath accepted
  quiesce_datapath-IsArmedOnce n s i = ground (arith, i)

  -- Neither the timer nor a completion runs the receive loop any more.
  pub quiesce_datapath-shuts :
      (s : Driver)
      → let t = quiesce_datapath kit s in
        (t.rx.rx_running ≡ false)
        × (t.life.stopping ≡ true)
        × (t.life.interface_opened ≡ s.life.interface_opened)
        × (t.handles ≡ s.handles)
  unfolding quiesce_datapath
  quiesce_datapath-shuts s = ground arith
