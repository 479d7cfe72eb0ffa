-- ===== src/Tests/Enabling.antt =====
-- Enabling and teardown at concrete inputs.
use smsc95xx_macos.Base.{◌+◌, ◌≡◌, refl, true, false, none, some}
use smsc95xx_macos.Driver.Status.{KernReturn}
use smsc95xx_macos.Driver.State.{Driver}
use smsc95xx_macos.Driver.Tx.{refused, tx_data_available, tx_drain_round, tx_drain_loop}
use smsc95xx_macos.Driver.Tx.Loop.{OnSome}
use smsc95xx_macos.Driver.Tx.Refusing.{rounds, tx_drain_loop-refusing}
use smsc95xx_macos.Driver.Tx.Ledger.{taken, given}
use smsc95xx_macos.Driver.Kit.{Kit}
use smsc95xx_macos.Driver.Rx.{rx_completed, rx_backoff_expired}
use smsc95xx_macos.Driver.Interface.{set_interface_enable, quiesce_datapath}
use smsc95xx_macos.Driver.Interface.Latch.{quiesce_datapath-latches}
use smsc95xx_macos.Driver.Interface.Enabling.{Outcome, set_interface_enable-Outcome}
use smsc95xx_macos.Tests.Sample.{sample_kit, running, fresh, transfer}

abbrev quiet : Driver
quiet = quiesce_datapath sample_kit running

quiesce_datapath-latches_example :
    (set_interface_enable sample_kit true quiet ≡ (KernReturn.offline, quiet))
    × OnSome
        (λ (t : Driver). (t.history ≡ quiet.history) × (t.tx.tx_in_flight ≡ quiet.tx.tx_in_flight))
        (tx_data_available sample_kit 5 quiet)
    × ((rx_backoff_expired sample_kit quiet).history ≡ quiet.history)
    × OnSome
        (λ (t : Driver). (t.history ≡ quiet.history) × (t.rx.rx_armed ≡ false))
        (rx_completed sample_kit 5 KernReturn.success 68 transfer quiet)
quiesce_datapath-latches_example =
    quiesce_datapath-latches sample_kit running 5 68 KernReturn.success transfer

-- Before the interface is enabled.
abbrev down : Driver
down = record fresh { rx = record fresh.rx { rx_running = false } }

set_interface_enable-Outcome_example :
    Outcome sample_kit (set_interface_enable sample_kit true down)
set_interface_enable-Outcome_example = set_interface_enable-Outcome sample_kit down refl

-- A stack that presents packet 0, empty, without end.
abbrev insistent : Kit
insistent = record sample_kit { dequeue_tx = λ h. (1, some 0); data_length = λ h p. 0 }

tx_drain_loop-refusing_example :
    (tx_drain_loop insistent 50 0 fresh ≡ none)
    × (tx_drain_round insistent (rounds insistent 3 fresh) ≡ refused (rounds insistent 4 fresh))
    × (taken 0 (rounds insistent 3 fresh).history ≡ taken 0 fresh.history + 3)
    × (given 0 (rounds insistent 3 fresh).history ≡ given 0 fresh.history + 3)
tx_drain_loop-refusing_example =
    tx_drain_loop-refusing insistent 50 0 3 fresh (λ h. refl) (λ h. refl) refl refl
