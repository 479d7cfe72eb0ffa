-- ===== src/UsbDevice.antt =====
-- dext/SMSC95xxUSBDevice/SMSC95xxUSBDevice.cpp: selecting a configuration when the device has none. What
-- DriverKit answers is a parameter; each call is made once.
use smsc95xx_macos.Base.{Bool, true, false, not, ◌&&◌, List, ◌∷◌, if◌then◌else◌}
pub mod Session
use smsc95xx_macos.Driver.Status.{KernReturn, is_success}

pub record Host : Type 0 where
  pub super_start : KernReturn
  -- the cast of the provider
  pub is_device : Bool
  pub open_device : KernReturn
  pub create_iterator : KernReturn
  -- the result, and whether an interface was stored
  pub copy_interface : KernReturn × Bool
  pub set_configuration : KernReturn

pub data Call : Type 0 where
  opened : KernReturn → Call
  closed : Call
  iterator_created : KernReturn → Call
  iterator_destroyed : Call
  interface_copied : KernReturn → Bool → Call
  interface_released : Call
  configured : KernReturn → Call
  super_stopped : Call

pub record Device : Type 0 where
  -- `ivars->device` is not null
  pub device : Bool
  pub calls : List Call

abbrev pub call : Call → Device → Device
call c d = record d { calls = c ∷ d.calls }

-- `Stop` once it is known that the instance variables are there.
unfoldable pub stop : Device → Device
stop d =
    let d1 = if d.device then record (call closed d) { device = false } else d in
    call super_stopped d1

module _ (host : Host) where
  -- The result, whether an interface was stored, and the device.
  unfoldable pub copy_first_interface : Device → KernReturn × Bool × Device
  copy_first_interface d =
      let d1 = call (iterator_created host.create_iterator) d in
      let (ret, there) = host.copy_interface in
      if not (is_success host.create_iterator)
      then (host.create_iterator, false, d1)
      else (ret, there, call iterator_destroyed (call (interface_copied ret there) d1))

  -- The device is forgotten, and the base class stopped.
  abbrev pub give_up : Device → Device
  give_up d = call super_stopped (record d { device = false })

  unfoldable pub select_configuration : Device → KernReturn × Device
  select_configuration d =
      let d1 = call (configured host.set_configuration) d in
      if not (is_success host.set_configuration)
      then (host.set_configuration, give_up (call closed d1))
      else (KernReturn.success, d1)

  -- With the device open.
  unfoldable pub configure : Device → KernReturn × Device
  configure d =
      let (ret, there, d1) = copy_first_interface d in
      if is_success ret && there
      then (KernReturn.success, call interface_released d1)
      else select_configuration d1

  unfoldable pub start_device : Device → KernReturn × Device
  start_device d =
      let d1 = call (opened host.open_device) (record d { device = true }) in
      if not (is_success host.super_start)
      then (host.super_start, d)
      else if not host.is_device
      then (KernReturn.no_device, give_up d)
      else if not (is_success host.open_device)
      then (host.open_device, give_up d1)
      else configure d1
