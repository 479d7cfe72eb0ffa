-- ===== src/Driver/Run.antt =====
-- dext/SMSC95xxDriver: the driver between attach and release. DriverKit delivers the callbacks one at a
-- time, on one serial queue, in any order: a run is any sequence of them, with any statuses, lengths and
-- bytes. A read is delivered only if it is outstanding, and fewer than 2^62 bytes of it.
use smsc95xx_macos.Base.{ℕ, suc, ◌+◌, ◌<◌, ◌^◌, ◌≡◌, Bool, true, some, List}
pub mod Keeping
pub mod Sound
use smsc95xx_macos.Driver.Status.{KernReturn}
use smsc95xx_macos.Driver.Kit.{Kit}
use smsc95xx_macos.Driver.State.{Driver}
use smsc95xx_macos.Driver.Tx.{tx_data_available, tx_completed}
use smsc95xx_macos.Driver.Rx.{rx_completed, rx_backoff_expired}
use smsc95xx_macos.Driver.Interface.{set_interface_enable, quiesce_datapath}

-- One callback, from a state to the next.
pub data Callback (kit : Kit) : Driver → Driver → Type 0 where
  doorbell : (fuel : ℕ) (s t : Driver) → tx_data_available kit fuel s ≡ some t → Callback kit s t
  write_finished :
      (fuel : ℕ) (status : KernReturn) (count : ℕ) (s t : Driver)
      → tx_completed kit fuel status count s ≡ some t
      → Callback kit s t
  timer_fired : (s : Driver) → Callback kit s (rx_backoff_expired kit s)
  interface_set :
      (enable : Bool) (s : Driver) → Callback kit s (set_interface_enable kit enable s).1
  quiesced : (s : Driver) → Callback kit s (quiesce_datapath kit s)

-- The states that are reached from `first`, with the number of reads that have finished.
pub data Run (kit : Kit) (first : Driver) : ℕ → Driver → Type 0 where
  begun : Run kit first 0 first
  then_called : (n : ℕ) (s t : Driver) → Run kit first n s → Callback kit s t → Run kit first n t
  then_read :
      (n fuel : ℕ) (status : KernReturn) (count : ℕ) (bytes : List ℕ) (s t : Driver)
      → Run kit first n s
      → count < 2 ^ 62
      → s.rx.rx_armed ≡ true
      → rx_completed kit fuel status count bytes s ≡ some t
      → Run kit first (n + 1) t
