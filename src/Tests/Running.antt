-- ===== src/Tests/Running.antt =====
-- Runs of the driver at concrete inputs.
use smsc95xx_macos.Base.{◌+◌, ◌≡◌, refl, true, some, arith}
use smsc95xx_macos.Driver.Status.{KernReturn}
use smsc95xx_macos.Driver.State.{Driver}
use smsc95xx_macos.Driver.Tx.{tx_completed}
use smsc95xx_macos.Driver.Tx.Mailbox.{replay, place}
use smsc95xx_macos.Driver.Tx.Concluding.{Concluded, tx_completed-Concluded}
use smsc95xx_macos.Driver.Tx.Ending.{tx_completed-total}
use smsc95xx_macos.Driver.Interface.{set_interface_enable, quiesce_datapath}
use smsc95xx_macos.Driver.Release.{release_resources}
use smsc95xx_macos.Driver.Release.Final.{Released, release_resources-Released}
use smsc95xx_macos.Driver.Rx.{rx_completed}
use smsc95xx_macos.Driver.Rx.Walk.{rx_completed-total}
use smsc95xx_macos.Driver.Run.{Run, begun, then_called, then_read, write_finished, interface_set}
use smsc95xx_macos.Driver.Run.Sound.{Sound, Run-Sound, Run-mailbox}
use smsc95xx_macos.Tests.Sample.{sample_kit, running, asked, transfer}
use smsc95xx_macos.Tests.Transmitting.{left, left-Backlog, running-TxInv}
use smsc95xx_macos.Tests.Receiving.{running-RxBooks, running-IsArmedOnce}

tx_completed-Concluded_example :
    (t : Driver) × (tx_completed sample_kit 5 KernReturn.success 68 running ≡ some t)
    × Concluded sample_kit running t
tx_completed-Concluded_example =
    tx_completed-Concluded sample_kit left 5 KernReturn.success 68 running left-Backlog
      (unfold asked in omega arith) (λ h. refl)

running-Sound : Sound 0 running
running-Sound = record {
  transmit = running-TxInv;
  receive = running-RxBooks;
  reads = running-IsArmedOnce;
}

-- The outstanding read finishes, the outstanding write finishes after it, the interface is set again,
-- the timer fires, and the datapath is closed.
read_done :
    (t : Driver) × (rx_completed sample_kit 72 KernReturn.success 68 transfer running ≡ some t)
read_done =
    rx_completed-total sample_kit 72 68 KernReturn.success transfer running (omega arith)
      (omega arith)

write_done :
    (t : Driver) × (tx_completed sample_kit
        (left read_done.0.history + 1)
        KernReturn.success
        68
        read_done.0
      ≡ some t)
write_done =
    tx_completed-total sample_kit left (left read_done.0.history + 1) KernReturn.success 68
      read_done.0 left-Backlog (omega arith)

abbrev enabled : Driver
enabled = (set_interface_enable sample_kit true write_done.0).1

a-Run : Run sample_kit running 1 enabled
a-Run =
    then_called 1 write_done.0 enabled
      (then_called 1 read_done.0 write_done.0
        (then_read 0 72 KernReturn.success 68 transfer running read_done.0 begun (omega arith) refl
          read_done.1)
        (write_finished _ KernReturn.success 68 read_done.0 write_done.0 write_done.1))
      (interface_set true write_done.0)

Run-Sound_example : Sound 1 enabled
Run-Sound_example = Run-Sound sample_kit running running-Sound 1 enabled a-Run

Run-mailbox_example : replay enabled.history ≡ place enabled.tx.tx_packet
Run-mailbox_example = Run-mailbox sample_kit running running-Sound 1 enabled a-Run

-- The driver is released with packet 0 in flight.
release_resources-Released_example :
    Released (release_resources sample_kit (quiesce_datapath sample_kit running))
release_resources-Released_example =
    release_resources-Released sample_kit running running-TxInv (λ h. refl)
