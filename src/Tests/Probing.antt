-- ===== src/Tests/Probing.antt =====
-- The probe, the ids that it parses, and the USB device at concrete inputs.
use smsc95xx_macos.Base.{◌≡◌, true, false, some, [], ◌∷◌, ◌++◌, arith}
use smsc95xx_macos.Proto.VidPid.{parse_vid_pid}
use smsc95xx_macos.Proto.VidPid.RoundTrip.{hex4, parse_vid_pid-hex4}
use smsc95xx_macos.Driver.Status.{KernReturn}
use smsc95xx_macos.Init.{init_seq}
use smsc95xx_macos.Driver.Control
use smsc95xx_macos.Driver.Control.{control_io, shared_result_to_io_return}
use smsc95xx_macos.Probe
use smsc95xx_macos.Probe.{probe_io, set_mac, read_mac_verified, write_reg_out, usb_control_out}
use smsc95xx_macos.Probe.Agreement.{probe-agrees}
use smsc95xx_macos.UsbDevice.{Host, start_device}
use smsc95xx_macos.UsbDevice.Session.{Settled, new_device, start_device-Settled}
use smsc95xx_macos.Tests.Attaching.{sample_pipe}

-- The device's ids, 0424:9e00.
parse_vid_pid-hex4_example :
    (parse_vid_pid (some (hex4 0x0424 ++ 0x3A ∷ hex4 0x9E00)) true ≡ some (0x0424, 0x9E00))
    × (parse_vid_pid (some (0x30 ∷ 0x78 ∷ hex4 0x0424 ++ 0x3A ∷ hex4 0x9E00)) true
        ≡ some (0x0424, 0x9E00))
parse_vid_pid-hex4_example = parse_vid_pid-hex4 0x0424 0x9E00 (omega arith) (omega arith)

probe-agrees_example :
    (Probe.mii_read sample_pipe true 0 1 [] ≡ Control.mii_read (control_io sample_pipe true) 0 1 [])
    × (Probe.init sample_pipe true (2 ∷ 0 ∷ 0 ∷ 0 ∷ 0 ∷ 1 ∷ []) false [] ≡ (
        let o =
          init_seq
            (probe_io (control_io sample_pipe true))
            (some (2 ∷ 0 ∷ 0 ∷ 0 ∷ 0 ∷ 1 ∷ []))
            false
            [] in
        (shared_result_to_io_return o.0, o.1)))
probe-agrees_example = probe-agrees sample_pipe true 0 1 (2 ∷ 0 ∷ 0 ∷ 0 ∷ 0 ∷ 1 ∷ []) false []

-- A device that arrives without a configuration, and takes one.
abbrev sample_host : Host
sample_host = record {
  super_start = KernReturn.success;
  is_device = true;
  open_device = KernReturn.success;
  create_iterator = KernReturn.success;
  copy_interface = (KernReturn.not_found, false);
  set_configuration = KernReturn.success;
}

start_device-Settled_example : Settled (start_device sample_host new_device)
start_device-Settled_example = start_device-Settled sample_host
