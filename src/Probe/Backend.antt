-- ===== src/Probe/Backend.antt =====
-- tools/smsc95xx-probe/usb_backend.c: claiming the interface and finding its bulk pipes. What IOKit
-- answers about an interface is a parameter.
use smsc95xx_macos.Base.{
  ℕ, zero, suc, ◌+◌, Bool, true, false, not, ◌&&◌, ◌||◌, Option, none, some, List, [], ◌∷◌,
  if◌then◌else◌, ◌==◌, leb, u8, is_some,
}
use mathlib.Core.Option
pub mod Pipes
pub mod Claim
use smsc95xx_macos.Driver.Status.{KernReturn, is_success}

-- `kUSBIn`, `kUSBOut` and the others.
pub data Direction : Type 0 where
  usb_in usb_out usb_any : Direction

unfoldable pub is_in : Direction → Bool
is_in usb_in = true
is_in _ = false

unfoldable pub is_out : Direction → Bool
is_out usb_out = true
is_out _ = false

-- One service of the iterator: whether its plug-in gives an interface, and that interface's answers.
-- `properties` of a pipe: the result, the direction, and whether `transfer_type` is `kUSBBulk`.
pub record Interface : Type 0 where
  pub queried : Bool
  pub open_result : KernReturn
  pub endpoints_result : KernReturn
  pub count : ℕ
  pub properties : ℕ → KernReturn × Direction × Bool

-- The calls on interfaces, that of the opening with its result.
pub data Call : Type 0 where
  iface_open : KernReturn → Call
  iface_close iface_release : Call

-- `usb_device` with a device in `intf`; `calls` has the latest first.
pub record UsbHandle : Type 0 where
  pub iface : Option Interface
  pub pipe_in : ℕ
  pub pipe_out : ℕ
  pub calls : List Call

-- The body of the loop over the pipes, on `pipe_in` and `pipe_out`.
unfoldable pub take_pipe : Interface → ℕ → ℕ × ℕ → ℕ × ℕ
take_pipe f pipe (i, o) =
    let (kr, direction, bulk) = f.properties pipe in
    if not (is_success kr)
    then (i, o)
    else if not bulk
    then (i, o)
    else if is_in direction && i == 0
    then (pipe, o)
    else if is_out direction && o == 0
    then (i, pipe)
    else (i, o)

-- The loop, whose variable is a `UInt8`, on fuel.
unfoldable pub scan_pipes : Interface → ℕ → ℕ → ℕ × ℕ → Option (ℕ × ℕ)
scan_pipes f zero pipe p = none
scan_pipes f (suc n) pipe p =
    let rest = scan_pipes f n (u8 (pipe + 1)) (take_pipe f pipe p) in
    if leb pipe f.count then rest else some p

unfoldable pub pipes_result : UsbHandle → ℕ × ℕ → KernReturn × UsbHandle
pipes_result d (i, o) = (
  if i == 0 || o == 0 then KernReturn.not_found else KernReturn.success,
  record d { pipe_in = i; pipe_out = o },
)

-- `none` is a call that does not return.
unfoldable pub find_bulk_pipes : Interface → UsbHandle → Option (KernReturn × UsbHandle)
find_bulk_pipes f d =
    if not (is_success f.endpoints_result)
    then some (f.endpoints_result, d)
    else Option.map (pipes_result d) (scan_pipes f 256 1 (0, 0))

-- What became of one service.
pub data Attempt : Type 0 where
  skipped stuck : Attempt
  claimed : UsbHandle → Attempt
  failed : KernReturn → UsbHandle → Attempt

abbrev pub usb_call : Call → UsbHandle → UsbHandle
usb_call c d = record d { calls = c ∷ d.calls }

-- After `find_bulk_pipes`.
unfoldable pub use_pipes : Option (KernReturn × UsbHandle) → Attempt
use_pipes none = stuck
use_pipes (some (pk, d)) =
    if is_success pk
    then claimed d
    else failed pk (usb_call iface_release (record (usb_call iface_close d) { iface = none }))

unfoldable pub attempt : Interface → UsbHandle → Attempt
attempt f d =
    let d1 = usb_call (iface_open f.open_result) d in
    if not f.queried
    then skipped
    else if is_success f.open_result
    then use_pipes (find_bulk_pipes f (record d1 { iface = some f }))
    else failed f.open_result (usb_call iface_release d1)

unfoldable pub settle :
    Attempt
    → KernReturn
    → UsbHandle
    → (KernReturn → UsbHandle → Option (KernReturn × UsbHandle))
    → Option (KernReturn × UsbHandle)
settle skipped last d rest = rest last d
settle stuck last d rest = none
settle (claimed d1) last d rest = some (KernReturn.success, d1)
settle (failed kr d1) last d rest = rest kr d1

-- The loop over the services of the iterator, with `last`.
unfoldable pub try_services :
    List Interface → KernReturn → UsbHandle → Option (KernReturn × UsbHandle)
try_services [] last d = some (last, d)
try_services (f ∷ fs) last d = settle (attempt f d) last d (λ kr d1. try_services fs kr d1)

-- `there` tells that `d` and `d->intf` are.
unfoldable pub usb_claim_interface :
    Bool → KernReturn → List Interface → UsbHandle → Option (KernReturn × UsbHandle)
usb_claim_interface there iterator services d =
    if not there
    then some (KernReturn.bad_argument, d)
    else if is_some d.iface
    then some (KernReturn.success, d)
    else if not (is_success iterator)
    then some (iterator, d)
    else try_services services KernReturn.not_found d
