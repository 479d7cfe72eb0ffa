-- ===== src/Tests/Receiving.antt =====
-- Receive at concrete inputs.
use smsc95xx_macos.Base.{ℕ, ◌≡◌, refl, none, some, arith}
use smsc95xx_macos.Driver.Status.{KernReturn, is_success}
use smsc95xx_macos.Driver.State.{Driver}
use smsc95xx_macos.Driver.Tx.Loop.{OnSome}
use smsc95xx_macos.Driver.Rx.{rx_walk, rx_completed}
use smsc95xx_macos.Driver.Rx.Walk.{rx_completed-total}
use smsc95xx_macos.Driver.Rx.Books.{RxBooks, acquired, disposed}
use smsc95xx_macos.Driver.Rx.Beside.{accepted}
use smsc95xx_macos.Driver.Rx.Arming.{IsArmedOnce, rx_completed-IsArmedOnce}
use smsc95xx_macos.Driver.Rx.Completion.{rx_completed-Books}
use smsc95xx_macos.Driver.Rx.Copies.{CopiesFit, rx_walk-CopiesFit}
use smsc95xx_macos.Tests.Sample.{sample_kit, running, fresh, transfer}

pub running-RxBooks : RxBooks 0 none running
unfolding acquired disposed
running-RxBooks = record { identity = refl; reasons = refl; custody = λ p. refl }

rx_completed-Books_example :
    OnSome (RxBooks 0 none) (rx_completed sample_kit 72 KernReturn.success 68 transfer running)
rx_completed-Books_example =
    rx_completed-Books sample_kit 72 KernReturn.success 68 transfer running (omega arith)
      running-RxBooks

pub running-IsArmedOnce : IsArmedOnce 0 running
unfolding accepted is_success
running-IsArmedOnce = refl

rx_completed-IsArmedOnce_example :
    OnSome (IsArmedOnce 1) (rx_completed sample_kit 72 KernReturn.success 68 transfer running)
rx_completed-IsArmedOnce_example =
    rx_completed-IsArmedOnce sample_kit 72 KernReturn.success 68 transfer 0 running (omega arith)
      refl running-IsArmedOnce

rx_walk-CopiesFit_example :
    OnSome (λ (r : Driver × ℕ). CopiesFit r.0.history) (rx_walk sample_kit 72 transfer 68 0 0 fresh)
rx_walk-CopiesFit_example =
    rx_walk-CopiesFit sample_kit 72 68 transfer fresh (omega arith) (λ h p. omega arith) tt

rx_completed-total_example :
    (t : Driver) × (rx_completed sample_kit 72 KernReturn.success 68 transfer running ≡ some t)
rx_completed-total_example =
    rx_completed-total sample_kit 72 68 KernReturn.success transfer running (omega arith)
      (omega arith)
