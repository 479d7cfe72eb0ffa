-- ===== src/Probe/Commands/Claiming.antt =====
-- What the subcommands have of the device behind the claim and the bring-up.
use mathlib.Core.Option
use smsc95xx_macos.Base.{
  ℕ, ◌<◌, ◌≡◌, ◌≢◌, refl, ap, Bool, true, not, Option, none, some, List, ◌∷◌, if-cases, is_some,
  All, arith,
}
use smsc95xx_macos.Driver.Status.{KernReturn, is_success}
use smsc95xx_macos.Probe
use smsc95xx_macos.Probe.Backend.{Interface, UsbHandle}
use smsc95xx_macos.Probe.Backend.Claim.{Sound, usb_claim_interface-Claimed}
use smsc95xx_macos.Probe.Commands.{World, Link, init_claimed, bring_up, usb_bulk_out}

-- No interface says that it has 255 pipes.
abbrev pub IsFair : World → Type 0
IsFair w = All (λ (f : Interface). f.count < 255) w.interfaces

abbrev pub IsSound : Link → Type 0
IsSound l = Sound l.handle l.handle.iface

-- What a success of the bring-up has: the interface, and a chip that took every write of it.
abbrev pub BroughtUp : World → List ℕ → Link → Bool × Link → Type 0
BroughtUp w mac l (up, l1) =
    IsSound l1
    × (l1.sent ≡ l.sent)
    × (l1.reads ≡ l.reads)
    × (up ≡ true
        → (is_some l1.handle.iface ≡ true)
          × (is_success (Probe.init w.pipe true mac true l.trace).0 ≡ true)
          × (l1.trace ≡ (Probe.init w.pipe true mac true l.trace).1))

pub bring_up-BroughtUp :
    (w : World) (mac : List ℕ) (l : Link)
    → IsFair w
    → IsSound l
    → (r : Bool × Link) × (bring_up w mac l ≡ some r) × BroughtUp w mac l r
unfolding bring_up init_claimed
bring_up-BroughtUp w mac l fair sound =
    let (o, e, result, sound1) =
      usb_claim_interface-Claimed w.iterator w.interfaces l.handle fair sound in
    (
      init_claimed w mac o l,
      ap (Option.map (λ (c : KernReturn × UsbHandle). init_claimed w mac c l)) e,
      if-cases (BroughtUp w mac l) (not (is_success o.0)) _ _
          (λ _. (sound1, refl, refl, (λ up. cc up)))
          (λ ok. (sound1, refl, refl, (λ up. (ground (arith, result, ok), up, refl)))),
    )

-- With an interface there are pipes.
pub Sound-pipes :
    (d : UsbHandle) (i : Option Interface)
    → Sound d i
    → is_some i ≡ true
    → (d.pipe_in ≢ 0) × (d.pipe_out ≢ 0)
Sound-pipes d none s h = absurd (cc h)
Sound-pipes d (some f) (_, (_, ins, outs)) h = (ins, outs)

-- So that a transfer is submitted.
pub usb_bulk_out-submits :
    (w : World) (bytes : List ℕ) (l : Link)
    → IsSound l
    → is_some l.handle.iface ≡ true
    → usb_bulk_out w bytes l
      ≡ (w.write_pipe l.handle.pipe_out bytes, record l { sent = bytes ∷ l.sent })
unfolding usb_bulk_out
usb_bulk_out-submits w bytes l sound there =
    let pipes = Sound-pipes l.handle l.handle.iface sound there in ground (arith, there, pipes.1)
