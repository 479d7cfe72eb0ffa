-- ===== src/Probe/Main.antt =====
-- tools/smsc95xx-probe/main.c: main, from the arguments to the exit code.
use mathlib.Core.Option
use smsc95xx_macos.Base.{ℕ, Bool, true, false, Option, none, some, List, [], ◌∷◌, bit_or}
pub mod Returning
pub mod Closing
use smsc95xx_macos.Proto.VidPid.{parse_vid_pid}
use smsc95xx_macos.Driver.Status.{KernReturn}
use smsc95xx_macos.Probe.Args.{Subcommand, id, phy, eeprom, init, tx, rx, all, Request, parse_args}
use smsc95xx_macos.Probe.Backend.{UsbHandle}
use smsc95xx_macos.Probe.Device.{
  DeviceService, Matching, DeviceCall, Opening, usb_open_id, usb_open_first, usb_close,
}
use smsc95xx_macos.Probe.Commands.{
  World, Link, cmd_id, cmd_phy, cmd_eeprom, cmd_init, cmd_tx, cmd_rx,
}

-- The exit code, what is left of the device, and the calls on device interfaces.
pub record Exit : Type 0 where
  pub code : ℕ
  pub link : Link
  pub device_calls : List DeviceCall

-- A `usb_device` fresh from `calloc`, on which nothing was done.
abbrev pub new_link : Link
new_link = record {
  handle = record { iface = none; pipe_in = 0; pipe_out = 0; calls = [] };
  trace = [];
  sent = [];
  reads = 0;
}

abbrev pub exit_early : ℕ → List DeviceCall → Exit
exit_early code calls = record { code = code; link = new_link; device_calls = calls }

-- Behind the subcommand.
unfoldable pub close_link : List DeviceCall → ℕ × Link → Exit
close_link calls (rc, l) =
    let (h, calls1) = usb_close l.handle calls in
    record { code = rc; link = record l { handle = h }; device_calls = calls1 }

-- "all" runs three subcommands even if one of them fails.
unfoldable pub run_all : World → Link → ℕ × Link
run_all d l =
    let (rc1, l1) = cmd_id d l in
    let (rc2, l2) = cmd_phy d l1 in
    let (rc3, l3) = cmd_eeprom d l2 in (bit_or (bit_or rc1 rc2) rc3, l3)

unfoldable pub run_subcommand : Subcommand → World → Option (List ℕ) → Link → Option (ℕ × Link)
run_subcommand id d mac l = some (cmd_id d l)
run_subcommand phy d mac l = some (cmd_phy d l)
run_subcommand eeprom d mac l = some (cmd_eeprom d l)
run_subcommand init d mac l = cmd_init d mac l
run_subcommand tx d mac l = cmd_tx d mac l
run_subcommand rx d mac l = cmd_rx d mac l
run_subcommand all d mac l = some (run_all d l)

-- `bus` gives the services that match two ids.
module _ (bus : ℕ → ℕ → Matching) where
  unfoldable pub open_ids : Option (ℕ × ℕ) → Option Opening
  open_ids none = none
  open_ids (some (vid, pid)) = some (usb_open_id (bus vid pid) [])

  -- `none` is a selector that is not two ids.
  unfoldable pub open_selected : Option (List ℕ) → Option Opening
  open_selected none = some (usb_open_first bus [])
  open_selected (some s) = open_ids (parse_vid_pid (some s) true)

-- `w` gives the answers of a device that was opened.
module _ (w : DeviceService → World) where
  unfoldable pub on_device :
      Subcommand → Option (List ℕ) → List DeviceCall → Option DeviceService → Option Exit
  on_device c mac calls none = some (exit_early 1 calls)
  on_device c mac calls (some s) =
      Option.map (close_link calls) (run_subcommand c (w s) mac new_link)

  unfoldable pub on_opening : Subcommand → Option (List ℕ) → Option Opening → Option Exit
  on_opening c mac none = some (exit_early 1 [])
  on_opening c mac (some o) = on_device c mac o.calls o.device

module _ (bus : ℕ → ℕ → Matching) (w : DeviceService → World) where
  unfoldable pub on_request : Option Request → Option Exit
  on_request none = some (exit_early 2 [])
  on_request (some (c, selector, mac)) = on_opening w c mac (open_selected bus selector)

  -- `main`, on the arguments behind the program's name.
  unfoldable pub main : List (List ℕ) → Option Exit
  main args = on_request (parse_args args)
