-- ===== src/Driver/Life.antt =====
-- dext/SMSC95xxDriver: the driver from the end of Start to the release of its last object. Callbacks are
-- delivered in any sequence before and during the teardown, and late ones after it; Stop is called once;
-- the Cancels of finishStop and their handlers come at any time after it.
use smsc95xx_macos.Base.{ℕ, ◌<◌, ◌^◌, ◌≡◌, ◌==◌, Option, none, some, List, if◌then◌else◌}
pub mod Carrying
pub mod Settling
use smsc95xx_macos.Driver.Status.{KernReturn}
use smsc95xx_macos.Driver.Kit.{Kit, super_stop}
use smsc95xx_macos.Driver.State.{Driver, record_event}
use smsc95xx_macos.Driver.Rx.{rx_completed}
use smsc95xx_macos.Driver.Run.{Callback}
use smsc95xx_macos.Driver.Release.{release_resources, stop}
use smsc95xx_macos.Driver.Teardown.{Teardown, Step}

-- What a step of the countdown does to the driver: if it released the resources, they are released, and
-- the base class is stopped.
unfoldable pub release_when_due : Kit → ℕ → Teardown → Driver → Driver
release_when_due kit releases x s =
    if x.releases == releases then s else record_event super_stop (release_resources kit s)

-- The states that are reached from `first`, before Stop (`none`) and from then on.
pub data Life (kit : Kit) (begin : Option Teardown) (first : Driver)
    : Option Teardown → Driver → Type 0 where
  attached : Life kit begin first begin first
  called :
      (o : Option Teardown) (s t : Driver)
      → Life kit begin first o s
      → Callback kit s t
      → Life kit begin first o t
  read_finished :
      (o : Option Teardown) (fuel : ℕ) (status : KernReturn) (count : ℕ) (bytes : List ℕ)
      (s t : Driver)
      → Life kit begin first o s
      → count < 2 ^ 62
      → rx_completed kit fuel status count bytes s ≡ some t
      → Life kit begin first o t
  stopped :
      (s : Driver)
      → Life kit begin first none s
      → Life kit begin first
          (some (stop kit s).1)
          (release_when_due kit 0 (stop kit s).1 (stop kit s).0)
  cancelled :
      (x y : Teardown) (s : Driver)
      → Life kit begin first (some x) s
      → Step x y
      → Life kit begin first (some y) (release_when_due kit x.releases y s)
