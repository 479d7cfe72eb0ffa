-- ===== src/Probe/Main/Closing.antt =====
-- What a run of the probe leaves open: nothing.
use mathlib.Core.Option
use smsc95xx_macos.Base.{
  ℕ, ◌≡◌, inr, refl, ap, subst, true, Option, none, some, List, [], if◌then◌else◌, is_some, arith,
}
use smsc95xx_macos.Proto.VidPid.{parse_vid_pid}
use smsc95xx_macos.Probe.Args.{Subcommand, Request, parse_args}
use smsc95xx_macos.Probe.Backend.{Interface, UsbHandle}
use smsc95xx_macos.Probe.Backend.Claim
use smsc95xx_macos.Probe.Backend.Claim.{Holds, Sound}
use smsc95xx_macos.Probe.Device.{
  DeviceService, Matching, DeviceCall, Opening, usb_open_id, usb_open_first, close_claimed,
  usb_close,
}
use smsc95xx_macos.Probe.Device.Balance
use smsc95xx_macos.Probe.Device.Balance.{InUse, Opened, usb_open_id-Opened, usb_open_first-Opened}
use smsc95xx_macos.Probe.Commands.{World, Link}
use smsc95xx_macos.Probe.Commands.Claiming.{IsFair, IsSound}
use smsc95xx_macos.Probe.Commands.Waiting.{FitsBuffer}
use smsc95xx_macos.Probe.Main.{
  Exit, new_link, exit_early, close_link, on_device, open_ids, open_selected, on_opening,
  on_request, main,
}
use smsc95xx_macos.Probe.Main.Returning.{IsCode, subcommand-Returned}

-- Each session that was opened is closed, each interface that was asked for is released.
abbrev pub Closed : Exit → Type 0
Closed e = InUse 0 e.device_calls × Holds 0 e.link.handle

claimed-closed : (d : UsbHandle) (i : Option Interface) → Sound d i → Holds 0 (close_claimed i d)
unfolding Claim.sum_of
claimed-closed d none s = s
claimed-closed d (some f) ((opened, tried), _) = (ground (arith, opened), ground (arith, tried))

link-Closed :
    (calls : List DeviceCall) (r : ℕ × Link)
    → InUse 1 calls
    → IsSound r.1
    → Closed (close_link calls r)
unfolding close_link usb_close Balance.sum_of
link-Closed calls (rc, l) (begun, asked) sound =
    ((ground (arith, begun), ground (arith, asked)), claimed-closed l.handle l.handle.iface sound)

-- What main exits with: 2 and nothing done, on arguments that it does not accept; else a code of 0 or
-- 1, and nothing left open.
abbrev pub Exited : Option Request → Exit → Type 0
Exited none e = e ≡ exit_early 2 []
Exited (some q) e = IsCode e.code × Closed e

module _ (bus : ℕ → ℕ → Matching) (w : DeviceService → World) where
  abbrev Exits : Option Request → Option Exit → Type 0
  Exits q o = (e : Exit) × (o ≡ some e) × Exited q e

  early-Closed : (calls : List DeviceCall) → InUse 0 calls → Closed (exit_early 1 calls)
  unfolding Claim.sum_of
  early-Closed calls used = (used, (refl, refl))

  device-Exits :
      (q : Request) (c : Subcommand) (mac : Option (List ℕ)) (o : Opening)
      (device : Option DeviceService)
      → o.device ≡ device
      → Opened o
      → ((s : DeviceService) → IsFair (w s) × FitsBuffer (w s))
      → Exits (some q) (on_device w c mac o.calls device)
  unfolding on_device close_link Claim.sum_of
  device-Exits q c mac o none e (_, used, _) good = (
    exit_early 1 o.calls,
    refl,
    (
      inr refl,
      early-Closed o.calls
          (subst (λ (d : Option DeviceService). InUse (if is_some d then 1 else 0) o.calls) e used),
    ),
  )
  device-Exits q c mac o (some s) e (_, used, _) good =
      let (r, er, (code, sound)) =
        subcommand-Returned c (w s) mac new_link (good s).0 (good s).1 (refl, refl) in
      let held =
        subst (λ (d : Option DeviceService). InUse (if is_some d then 1 else 0) o.calls) e used in
      (
        close_link o.calls r,
        ap (Option.map (close_link o.calls)) er,
        (code, link-Closed o.calls r held sound),
      )

  opening-Exits :
      (q : Request) (c : Subcommand) (mac selector : Option (List ℕ))
      → ((s : DeviceService) → IsFair (w s) × FitsBuffer (w s))
      → Exits (some q) (on_opening w c mac (open_selected bus selector))
  unfolding on_opening open_selected open_ids Balance.sum_of
  opening-Exits q c mac none good =
      let o = usb_open_first bus [] in
      device-Exits q c mac o o.device refl (usb_open_first-Opened bus [] (refl, refl)) good
  opening-Exits q c mac (some s) good = by_ids (parse_vid_pid (some s) true)
    where
      by_ids : (i : Option (ℕ × ℕ)) → Exits (some q) (on_opening w c mac (open_ids bus i))
      by_ids none = (exit_early 1 [], refl, (inr refl, early-Closed [] (refl, refl)))
      by_ids (some (vid, pid)) =
          let o = usb_open_id (bus vid pid) [] in
          device-Exits q c mac o o.device refl (usb_open_id-Opened (bus vid pid) [] (refl, refl))
            good

  request-Exits :
      (q : Option Request)
      → ((s : DeviceService) → IsFair (w s) × FitsBuffer (w s))
      → Exits q (on_request bus w q)
  unfolding on_request
  request-Exits none good = (exit_early 2 [], refl, refl)
  request-Exits (some (c, selector, mac)) good =
      opening-Exits (c, selector, mac) c mac selector good

  -- Whatever the arguments, the devices that are there and their answers, as long as no interface has
  -- 255 pipes and no transfer is longer than its buffer, the probe comes to an end. On arguments that it
  -- does not accept it exits with 2 and has opened nothing; else it exits with 0 or 1, and every session
  -- with a device or an interface that it opened is closed, every interface it asked for released.
  pub main-Exited :
      (args : List (List ℕ))
      → ((s : DeviceService) → IsFair (w s) × FitsBuffer (w s))
      → (e : Exit) × (main bus w args ≡ some e) × Exited (parse_args args) e
  unfolding main
  main-Exited args good = request-Exits (parse_args args) good
