-- ===== src/Probe/Device.antt =====
-- tools/smsc95xx-probe/usb_backend.c: opening a device by its ids, the first known one, and closing it.
-- What IOKit answers about the matching services is a parameter.
use smsc95xx_macos.Base.{
  ℕ, Bool, true, false, not, ◌&&◌, Option, none, some, List, [], ◌∷◌, if◌then◌else◌, ◌==◌,
}
pub mod Balance
use smsc95xx_macos.Driver.Status.{KernReturn, is_success}
use smsc95xx_macos.Probe.Backend.{Interface, UsbHandle, iface_close, iface_release, usb_call}

-- One matching service: whether `query_device` gives its interface, and that interface's answers, to
-- GetConfiguration with the configuration. `allocated` tells that `calloc` succeeds.
pub record DeviceService : Type 0 where
  pub queried : Bool
  pub open_result : KernReturn
  pub configuration : KernReturn × ℕ
  pub set_result : KernReturn
  pub allocated : Bool

-- What the matching of two ids gives: the dictionary, the result, and the services of the iterator.
pub record Matching : Type 0 where
  pub created : Bool
  pub result : KernReturn
  pub services : List DeviceService

-- The calls on device interfaces.
pub data DeviceCall : Type 0 where
  device_open set_configuration : KernReturn → DeviceCall
  device_close device_release : DeviceCall

-- The device that was opened, the result, and the calls, the latest first.
pub record Opening : Type 0 where
  pub device : Option DeviceService
  pub kr : KernReturn
  pub calls : List DeviceCall

-- Whether the device answers that it has no configuration.
unfoldable pub is_unconfigured : DeviceService → Bool
is_unconfigured s = let (kr, cfg) = s.configuration in is_success kr && cfg == 0

abbrev pub put_back : List DeviceCall → List DeviceCall
put_back calls = device_release ∷ device_close ∷ calls

-- Behind the configuration of an opened device.
unfoldable pub keep_device : DeviceService → KernReturn → List DeviceCall → Opening
keep_device s last calls =
    if s.allocated
    then record { device = some s; kr = KernReturn.success; calls = calls }
    else record { device = none; kr = last; calls = put_back calls }

-- The body of the loop over the services, with `last_kr`.
unfoldable pub open_service : DeviceService → KernReturn → List DeviceCall → Opening
open_service s last calls =
    let opened = device_open s.open_result ∷ calls in
    let configured = set_configuration s.set_result ∷ opened in
    if not s.queried
    then record { device = none; kr = last; calls = calls }
    else if not (is_success s.open_result)
    then record { device = none; kr = s.open_result; calls = device_release ∷ opened }
    else if not (is_unconfigured s)
    then keep_device s last opened
    else if is_success s.set_result
    then keep_device s last configured
    else record { device = none; kr = KernReturn.not_ready; calls = put_back configured }

-- A device ends the loop; without one the rest has its turn.
unfoldable pub or_next :
    Option DeviceService → Opening → (KernReturn → List DeviceCall → Opening) → Opening
or_next (some s) o rest = o
or_next none o rest = rest o.kr o.calls

unfoldable pub open_services : List DeviceService → KernReturn → List DeviceCall → Opening
open_services [] last calls = record { device = none; kr = last; calls = calls }
open_services (s ∷ ss) last calls =
    let o = open_service s last calls in
    or_next o.device o (λ last1 calls1. open_services ss last1 calls1)

unfoldable pub usb_open_id : Matching → List DeviceCall → Opening
usb_open_id m calls =
    if not m.created
    then record { device = none; kr = KernReturn.no_device; calls = calls }
    else if not (is_success m.result)
    then record { device = none; kr = KernReturn.no_device; calls = calls }
    else open_services m.services KernReturn.no_device calls

-- The ids that are known, in the order in which they are tried.
abbrev pub known_ids : List (ℕ × ℕ)
known_ids = (0x0424, 0x9905) ∷ (0x0424, 0x9E00) ∷ (0x184F, 0x0051) ∷ []

-- `kr != kIOReturnNoDevice`.
unfoldable pub is_no_device : KernReturn → Bool
is_no_device KernReturn.no_device = true
is_no_device _ = false

unfoldable pub open_known :
    (ℕ → ℕ → Matching) → List (ℕ × ℕ) → KernReturn → List DeviceCall → Opening
open_known bus [] last calls = record { device = none; kr = last; calls = calls }
open_known bus ((vid, pid) ∷ ids) last calls =
    let o = usb_open_id (bus vid pid) calls in
    or_next o.device o
      (λ kr calls1. open_known bus ids (if is_no_device kr then last else kr) calls1)

unfoldable pub usb_open_first : (ℕ → ℕ → Matching) → List DeviceCall → Opening
usb_open_first bus calls = open_known bus known_ids KernReturn.no_device calls

-- `usb_close` of an open device: the interface, if it was claimed, and then the device.
abbrev pub close_claimed : Option Interface → UsbHandle → UsbHandle
close_claimed none d = d
close_claimed (some f) d = usb_call iface_release (usb_call iface_close d)

unfoldable pub usb_close : UsbHandle → List DeviceCall → UsbHandle × List DeviceCall
usb_close d calls = (close_claimed d.iface d, put_back calls)
