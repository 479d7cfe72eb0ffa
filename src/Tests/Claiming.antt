-- ===== src/Tests/Claiming.antt =====
-- A claim of the interface at concrete services: one that is refused, one without bulk pipes, and one
-- with a pipe in and a pipe out.
use smsc95xx_macos.Base.{
  ℕ, ◌+◌, ◌≡◌, ◌<◌, refl, true, none, some, [], ◌∷◌, if◌then◌else◌, ◌==◌, arith,
}
use smsc95xx_macos.Driver.Status.{KernReturn}
use smsc95xx_macos.Probe.Backend.{
  Interface, usb_in, usb_out, UsbHandle, scan_pipes, usb_claim_interface,
}
use smsc95xx_macos.Probe.Backend.Pipes.{Scanned, scan_pipes-ends}
use smsc95xx_macos.Probe.Backend.Claim
use smsc95xx_macos.Probe.Backend.Claim.{Claimed, usb_claim_interface-Claimed}

abbrev pub pipes_interface : KernReturn → ℕ → Interface
pipes_interface r n = record {
  queried = true;
  open_result = r;
  endpoints_result = KernReturn.success;
  count = n;
  properties = λ q. (KernReturn.success, (if q == 2 then usb_out else usb_in), true);
}

abbrev fresh_handle : UsbHandle
fresh_handle = record { iface = none; pipe_in = 0; pipe_out = 0; calls = [] }

scan_pipes-ends_example :
    ((pipes_interface KernReturn.success 3).count < 255
      → (r : ℕ × ℕ) × (scan_pipes (pipes_interface KernReturn.success 3) 256 1 (0, 0) ≡ some r)
        × Scanned (pipes_interface KernReturn.success 3) (3 + 1) r)
    × ((pipes_interface KernReturn.success 3).count ≡ 255
        → (n : ℕ) → scan_pipes (pipes_interface KernReturn.success 3) n 1 (0, 0) ≡ none)
scan_pipes-ends_example = scan_pipes-ends (pipes_interface KernReturn.success 3)

usb_claim_interface-Claimed_example : Claimed (
    usb_claim_interface true KernReturn.success
      (pipes_interface KernReturn.aborted 3
        ∷ pipes_interface KernReturn.success 1
        ∷ pipes_interface KernReturn.success 3
        ∷ [])
      fresh_handle)
unfolding Claim.sum_of
usb_claim_interface-Claimed_example =
    usb_claim_interface-Claimed KernReturn.success
      (pipes_interface KernReturn.aborted 3
        ∷ pipes_interface KernReturn.success 1
        ∷ pipes_interface KernReturn.success 3
        ∷ [])
      fresh_handle (omega arith, (omega arith, (omega arith, tt))) (refl, refl)
