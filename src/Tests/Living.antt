-- ===== src/Tests/Living.antt =====
-- A life of the driver: Stop is called with a read and a write outstanding, the aborted read finishes,
-- three of the four Cancels are refused and one is accepted, the timer fires, the handler runs, and a
-- doorbell comes late.
use smsc95xx_macos.Base.{ℕ, ◌≡◌, refl, false, none, some, [], arith}
use smsc95xx_macos.Driver.Status.{KernReturn}
use smsc95xx_macos.Driver.State.{Driver}
use smsc95xx_macos.Driver.Rx.{rx_completed, rx_backoff_expired}
use smsc95xx_macos.Driver.Rx.Walk.{rx_completed-total}
use smsc95xx_macos.Driver.Interface.{quiesce_datapath}
use smsc95xx_macos.Driver.Run.{timer_fired, interface_set}
use smsc95xx_macos.Driver.Interface.{set_interface_enable}
use smsc95xx_macos.Driver.Release.{stop}
use smsc95xx_macos.Driver.Teardown.{
  Teardown, finalize, begin_stop, cancel_count, cancel_accepted, cancel_refused, handler_ran,
}
use smsc95xx_macos.Driver.Life.{
  release_when_due, Life, attached, called, read_finished, stopped, cancelled,
}
use smsc95xx_macos.Driver.Life.Settling.{Ended, Life-Holds, Holds-Ended}
use smsc95xx_macos.Tests.Sample.{sample_kit, running}
use smsc95xx_macos.Tests.Transmitting.{running-TxInv}

-- The countdown: all to come; some refused; one accepted; and its handler run.
abbrev countdown : ℕ → Teardown
countdown n = record { pending = n; to_cancel = n; waiting = 0; releases = 0; stops = 0 }

abbrev waiting_one : Teardown
waiting_one = record { pending = 1; to_cancel = 0; waiting = 1; releases = 0; stops = 0 }

abbrev all_done : Teardown
all_done = record { pending = 0; to_cancel = 0; waiting = 0; releases = 1; stops = 1 }

abbrev quiet : Driver
quiet = quiesce_datapath sample_kit running

stopped-Life : Life sample_kit none running (some (countdown 4)) quiet
unfolding stop begin_stop cancel_count release_when_due quiesce_datapath
stopped-Life = stopped running attached

read_done : (t : Driver) × (rx_completed sample_kit 5 KernReturn.aborted 0 [] quiet ≡ some t)
read_done =
    rx_completed-total sample_kit 5 0 KernReturn.aborted [] quiet (omega arith) (omega arith)

read-Life : Life sample_kit none running (some (countdown 4)) read_done.0
read-Life =
    read_finished _ 5 KernReturn.aborted 0 [] quiet read_done.0 stopped-Life (omega arith)
      read_done.1

refused-Life : Life sample_kit none running (some (countdown 1)) read_done.0
unfolding release_when_due finalize
refused-Life =
    cancelled (countdown 2) (countdown 1) read_done.0
      (cancelled (countdown 3) (countdown 2) read_done.0
        (cancelled (countdown 4) (countdown 3) read_done.0 read-Life
          (cancel_refused (countdown 4) 3 refl))
        (cancel_refused (countdown 3) 2 refl))
      (cancel_refused (countdown 2) 1 refl)

abbrev expired : Driver
expired = rx_backoff_expired sample_kit read_done.0

expired-Life : Life sample_kit none running (some waiting_one) expired
unfolding release_when_due
expired-Life =
    called _ read_done.0 expired
      (cancelled (countdown 1) waiting_one read_done.0 refused-Life
        (cancel_accepted (countdown 1) 0 refl))
      (timer_fired read_done.0)

abbrev released : Driver
released = release_when_due sample_kit 0 all_done expired

released-Life : Life sample_kit none running (some all_done) released
unfolding finalize
released-Life = cancelled waiting_one all_done expired expired-Life (handler_ran waiting_one 0 refl)

-- The interface is set down late.
abbrev late : Driver
late = (set_interface_enable sample_kit false released).1

late-Life : Life sample_kit none running (some all_done) late
late-Life = called _ released late released-Life (interface_set false released)

life_ends : (all_done.stops ≡ 1) × (all_done.releases ≡ 1) × Ended sample_kit late
life_ends =
    Holds-Ended sample_kit all_done late
      (Life-Holds sample_kit none running
        (record { books = running-TxInv; there = λ h. refl; phase = refl }) (some all_done) late
        late-Life)
      refl refl
