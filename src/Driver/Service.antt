-- ===== src/Driver/Service.antt =====
-- dext/SMSC95xxDriver: the service from init to its end: Start of a new driver, and then the life that
-- follows, or, where the registration was refused, the rest of the teardown that Start began.
use smsc95xx_macos.Base.{◌≡◌, true, Option, none, some}
pub mod Ending
use smsc95xx_macos.Driver.Status.{KernReturn, is_success}
use smsc95xx_macos.Driver.State.{Driver}
use smsc95xx_macos.Driver.Teardown.{Teardown}
use smsc95xx_macos.Driver.Life.{Life, release_when_due}
use smsc95xx_macos.Driver.Attach.{Site, Attach}
use smsc95xx_macos.Driver.Attach.Start.{start, new_attach, returned, unwinding}

-- The states that a service can reach once its Start has returned.
pub data Service (site : Site) : Option Teardown → Driver → Type 0 where
  serving :
      (ret : KernReturn) (a : Attach) (o : Option Teardown) (s : Driver)
      → start site new_attach ≡ returned ret a
      → is_success ret ≡ true
      → Life site.kit none a.driver o s
      → Service site o s
  refused :
      (ret : KernReturn) (a : Attach) (x : Teardown) (o : Option Teardown) (s : Driver)
      → start site new_attach ≡ unwinding ret a x
      → Life site.kit (some x) (release_when_due site.kit 0 x a.driver) o s
      → Service site o s
