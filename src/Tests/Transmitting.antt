-- ===== src/Tests/Transmitting.antt =====
-- Transmit at concrete inputs.
use smsc95xx_macos.Base.{ℕ, ◌-◌, ◌≡◌, refl, ap, Option, some, arith}
use smsc95xx_macos.Driver.Status.{KernReturn, is_success}
use smsc95xx_macos.Driver.Kit.{History}
use smsc95xx_macos.Driver.State.{Driver}
use smsc95xx_macos.Driver.Tx.{tx_completed, tx_drain_submission}
use smsc95xx_macos.Driver.Tx.Ledger.{TxInv, taken, given}
use smsc95xx_macos.Driver.Tx.Mailbox.{replay, advance, take_in, start}
use smsc95xx_macos.Driver.Tx.Loop.{OnSome}
use smsc95xx_macos.Driver.Tx.Callbacks.{Keeps, tx_completed-Keeps}
use smsc95xx_macos.Driver.Tx.Drain.{Backlog, Drained, tx_drain_submission-Drained}
use smsc95xx_macos.Tests.Sample.{sample_kit, running, fresh, asked}

pub running-TxInv : TxInv running
unfolding taken given replay advance take_in start is_success
running-TxInv = record {
  ledger = record { flag = refl; balance = refl };
  queue = λ h. refl;
  once = λ p. omega arith;
  mailbox = refl;
}

fresh-TxInv : TxInv fresh
unfolding taken given replay advance take_in start
fresh-TxInv = record {
  ledger = record { flag = refl; balance = refl };
  queue = λ h. refl;
  once = λ p. refl;
  mailbox = refl;
}

tx_completed-Keeps_example :
    OnSome (Keeps running) (tx_completed sample_kit 5 KernReturn.success 68 running)
tx_completed-Keeps_example =
    tx_completed-Keeps sample_kit 5 KernReturn.success 68 running running-TxInv

-- The packets that the sample environment has left.
abbrev pub left : History → ℕ
left h = 3 - asked h

pub left-Backlog : Backlog sample_kit left
unfolding asked
left-Backlog = record {
  take_one = λ n p h e pos. ground (arith, ap (λ (r : ℕ × Option ℕ). r.0) e);
  send = λ b r h. omega arith;
  hand_back = λ p r h. omega arith;
  clear_stall = λ h. omega arith;
}

tx_drain_submission-Drained_example :
    (t : Driver) × (tx_drain_submission sample_kit 5 fresh ≡ some t) × Drained sample_kit t
tx_drain_submission-Drained_example =
    tx_drain_submission-Drained sample_kit left 5 fresh left-Backlog (unfold asked in omega arith)
      refl refl
