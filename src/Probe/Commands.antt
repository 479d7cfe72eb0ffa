-- ===== src/Probe/Commands.antt =====
-- tools/smsc95xx-probe/main.c: the subcommands, without what they print. The exit code of a subcommand
-- is 0 or 1. The bulk transfers are those of usb_backend.c.
use mathlib.Core.Option
use smsc95xx_macos.Base.{
  ℕ, zero, suc, ◌+◌, Bool, true, false, not, ◌&&◌, ◌||◌, Option, none, some, List, [], ◌∷◌, ◌++◌,
  if◌then◌else◌, ◌==◌, ltb, u8, u32, length, get_or, replicate, take, write_at, is_some, bit_or,
  map,
}
pub mod Station
pub mod Claiming
pub mod Sending
pub mod Receiving
pub mod Waiting
pub mod Initialising
use smsc95xx_macos.Regs.{
  reg_id_rev, reg_mac_cr, reg_tx_cfg, phy_addr, mii_bmcr, mii_bmsr, mii_phyid1, mii_phyid2,
  mii_anar, mii_anlpar, frame_min, tx_header_len,
}
use smsc95xx_macos.Proto.Words.{bmsr_autoneg_capable}
use smsc95xx_macos.Proto.Mac.{MacCheck, mac_plausible, scan_octets}
use smsc95xx_macos.Proto.Tx.{tx_prepend}
use smsc95xx_macos.Proto.Rx.{RxRecord, rx_next}
use smsc95xx_macos.Driver.Status.{KernReturn, is_success}
use smsc95xx_macos.Driver.Control.{ControlPipe}
use smsc95xx_macos.Init.{Trace, reg_read}
use smsc95xx_macos.Probe.Backend.{Interface, UsbHandle, usb_claim_interface}
use smsc95xx_macos.Probe.{read_reg, mii_read, eeprom_loaded, read_mac_verified, link_up}
use smsc95xx_macos.Probe

-- The answers of the device and of IOKit, for an open device: `scan_mac` is sscanf with the format of
-- a MAC address, how many numbers it stored and these; `write_pipe` is WritePipeTO and `read_pipe` is
-- ReadPipeTO, the n-th time, with the length it stores and the bytes; `xfer` is what the array `xfer`
-- of cmd_tx holds before it is written.
pub record World : Type 0 where
  pub pipe : ControlPipe
  pub iterator : KernReturn
  pub interfaces : List Interface
  pub scan_mac : List ℕ → ℕ × List ℕ
  pub write_pipe : ℕ → List ℕ → KernReturn
  pub read_pipe : ℕ → KernReturn × ℕ × List ℕ
  pub xfer : List ℕ

-- The open device: its handle, the accesses to its registers, the transfers that were submitted to
-- its bulk OUT pipe, the latest first, and how many bulk IN transfers were.
pub record Link : Type 0 where
  pub handle : UsbHandle
  pub trace : Trace
  pub sent : List (List ℕ)
  pub reads : ℕ

-- The octets of an address, if each number is one.
unfoldable pub octets_of : List ℕ → Option (List ℕ)
octets_of [] = some []
octets_of (v ∷ vs) =
    let rest = octets_of vs in if ltb 0xFF v then none else Option.map (◌∷◌ (u8 v)) rest

-- `kr == kIOReturnTimeout || kr == kIOUSBTransactionTimeout`.
unfoldable pub is_timeout : KernReturn → Bool
is_timeout KernReturn.timeout = true
is_timeout KernReturn.transaction_timeout = true
is_timeout _ = false

abbrev pub plausible_only : MacCheck → List ℕ → Option (List ℕ)
plausible_only MacCheck.plausible mac = some mac
plausible_only _ mac = none

-- Broadcast, the address, the EtherType 0x88B5, and "SMSC95XX-PROBE-M2", in a frame of zeros.
abbrev pub probe_tag : List ℕ
probe_tag =
    0x53 ∷ 0x4D ∷ 0x53 ∷ 0x43 ∷ 0x39 ∷ 0x35 ∷ 0x58 ∷ 0x58 ∷ 0x2D ∷ 0x50 ∷ 0x52 ∷ 0x4F ∷ 0x42 ∷ 0x45
    ∷ 0x2D ∷ 0x4D ∷ 0x32 ∷ []

unfoldable pub probe_frame : List ℕ → List ℕ
probe_frame mac =
    let f1 = write_at 0 (replicate 6 0xFF) (replicate frame_min 0) in
    let f2 = write_at 6 mac f1 in
    let f3 = write_at 12 (0x88 ∷ []) f2 in
    let f4 = write_at 13 (0xB5 ∷ []) f3 in write_at 14 probe_tag f4

-- The frames that the walk over a transfer finds, on fuel, beyond the `n` so far.
abbrev pub count_next : (ℕ → ℕ → Option ℕ) → ℕ → Option RxRecord → Option ℕ
count_next rest n none = some n
count_next rest n (some r) = rest r.offset (n + 1)

unfoldable pub count_frames : ℕ → List ℕ → ℕ → ℕ → ℕ → Option ℕ
count_frames zero buf got at n = none
count_frames (suc fuel) buf got at n =
    count_next (λ at1 n1. count_frames fuel buf got at1 n1) n (rx_next buf got at)

-- 1 for a failure.
abbrev pub exit_of : KernReturn × Link → ℕ × Link
exit_of (kr, l) = if not (is_success kr) then (1, l) else (0, l)

-- The body of the loop of cmd_rx, with the further attempts.
unfoldable pub receive_one :
    (List ℕ → Link → Option (ℕ × Link)) → KernReturn × ℕ × List ℕ × Link → Option (ℕ × Link)
receive_one again (kr, got, buf, l) =
    let rest = again buf l in
    if is_timeout kr
    then rest
    else if not (is_success kr)
    then some (1, l)
    else if got == 0
    then rest
    else Option.map (λ (n : ℕ). (if n == 0 then 1 else 0, l)) (count_frames (got + 4) buf got 0 0)

module _ (w : World) where
  unfoldable pub parse_mac : List ℕ → Option (List ℕ)
  parse_mac s =
      let (n, v) = w.scan_mac s in
      if not (n == 6)
      then none
      else octets_of (map (λ i. get_or v i 0) (0 ∷ 1 ∷ 2 ∷ 3 ∷ 4 ∷ 5 ∷ []))

  -- The address, or `none` for a result of 1.
  unfoldable pub resolve_mac : Option (List ℕ) → Trace → Option (List ℕ) × Trace
  resolve_mac (some s) t = (parse_mac s, t)
  resolve_mac none t =
      let (_, _, t1) = eeprom_loaded w.pipe true true t in
      let (kr, mac, t2) = read_mac_verified w.pipe true t1 in
      if not (is_success kr) then (none, t2) else (plausible_only (mac_plausible mac) mac, t2)

  -- The claim of the interface and the bring-up, with which cmd_init, cmd_tx and cmd_rx go on.
  unfoldable pub init_claimed : List ℕ → KernReturn × UsbHandle → Link → Bool × Link
  init_claimed mac (kr, h) l =
      let (kr1, t) = Probe.init w.pipe true mac true l.trace in
      if not (is_success kr)
      then (false, record l { handle = h })
      else (is_success kr1, record l { handle = h; trace = t })

  unfoldable pub bring_up : List ℕ → Link → Option (Bool × Link)
  bring_up mac l =
      Option.map (λ (c : KernReturn × UsbHandle). init_claimed mac c l)
        (usb_claim_interface true w.iterator w.interfaces l.handle)

  unfoldable pub with_mac :
      Option (List ℕ) → Link → (List ℕ → Option (ℕ × Link)) → Option (ℕ × Link)
  with_mac none l go = some (1, l)
  with_mac (some mac) l go = go mac

  unfoldable pub cmd_id : Link → ℕ × Link
  cmd_id l =
      let (kr, v) = read_reg w.pipe true l.trace reg_id_rev in
      exit_of (kr, record l { trace = reg_read reg_id_rev kr v ∷ l.trace })

  -- The loop over the registers of the PHY.
  unfoldable pub read_phy : List ℕ → Trace → ℕ × Trace
  read_phy [] t = (0, t)
  read_phy (reg ∷ regs) t =
      let (kr, v, t1) = mii_read w.pipe true phy_addr reg t in
      let rest = read_phy regs t1 in if not (is_success kr) then (1, t1) else rest

  unfoldable pub cmd_phy : Link → ℕ × Link
  cmd_phy l =
      let (rc, t) =
        read_phy (mii_bmcr ∷ mii_bmsr ∷ mii_phyid1 ∷ mii_phyid2 ∷ mii_anar ∷ mii_anlpar ∷ [])
          l.trace in
      (rc, record l { trace = t })

  unfoldable pub cmd_eeprom : Link → ℕ × Link
  cmd_eeprom l =
      let (_, _, t1) = eeprom_loaded w.pipe true true l.trace in
      let (kr, mac, t2) = read_mac_verified w.pipe true t1 in
      let (zeros, ones) = scan_octets mac true true in
      let l1 = record l { trace = t2 } in
      if not (is_success kr) then (1, l1) else if zeros || ones then (1, l1) else (0, l1)

  -- The readback behind a bring-up.
  unfoldable pub read_back : Bool × Link → ℕ × Link
  read_back (false, l) = (1, l)
  read_back (true, l) =
      let (kr_mac, v) = read_reg w.pipe true l.trace reg_mac_cr in
      let t1 = reg_read reg_mac_cr kr_mac v ∷ l.trace in
      let (kr_tx, v2) = read_reg w.pipe true t1 reg_tx_cfg in
      let t2 = reg_read reg_tx_cfg kr_tx v2 ∷ t1 in
      let (_, _, t3) = link_up w.pipe true true t2 in
      (if not (is_success kr_mac) || not (is_success kr_tx) then 1 else 0, record l { trace = t3 })

  unfoldable pub init_with : Link → List ℕ → Option (ℕ × Link)
  init_with l mac =
      let (kr, bmsr, t) = mii_read w.pipe true phy_addr mii_bmsr l.trace in
      let l1 = record l { trace = t } in
      if not (is_success kr)
      then some (1, l1)
      else if bmsr_autoneg_capable bmsr
      then some (1, l1)
      else Option.map read_back (bring_up mac l1)

  -- What `resolve_mac` leaves.
  abbrev pub resolved : Option (List ℕ) → Link → Link
  resolved mac l = record l { trace = (resolve_mac mac l.trace).1 }

  unfoldable pub cmd_init : Option (List ℕ) → Link → Option (ℕ × Link)
  cmd_init mac l =
      with_mac (resolve_mac mac l.trace).0 (resolved mac l) (init_with (resolved mac l))

  unfoldable pub usb_bulk_out : List ℕ → Link → KernReturn × Link
  usb_bulk_out bytes l =
      if not (is_some l.handle.iface) || l.handle.pipe_out == 0
      then (KernReturn.not_open, l)
      else (w.write_pipe l.handle.pipe_out bytes, record l { sent = bytes ∷ l.sent })

  unfoldable pub submit_frame : List ℕ → Link → ℕ × List ℕ → ℕ × Link
  submit_frame frame l (hdr, xfer) =
      if hdr == 0
      then (1, l)
      else exit_of (usb_bulk_out (take (u32 (hdr + frame_min)) (write_at hdr frame xfer)) l)

  unfoldable pub send_frame : List ℕ → Bool × Link → ℕ × Link
  send_frame mac (false, l) = (1, l)
  send_frame mac (true, l) =
      submit_frame (probe_frame mac) l (tx_prepend w.xfer (tx_header_len + frame_min) frame_min)

  unfoldable pub send_with : Link → List ℕ → Option (ℕ × Link)
  send_with l mac = Option.map (send_frame mac) (bring_up mac l)

  unfoldable pub cmd_tx : Option (List ℕ) → Link → Option (ℕ × Link)
  cmd_tx mac l = with_mac (resolve_mac mac l.trace).0 (resolved mac l) (send_with (resolved mac l))

  -- The result, the length, the buffer, and the device.
  unfoldable pub usb_bulk_in : List ℕ → Link → KernReturn × ℕ × List ℕ × Link
  usb_bulk_in buf l =
      let (kr, got, bytes) = w.read_pipe l.reads in
      if not (is_some l.handle.iface) || l.handle.pipe_in == 0
      then (KernReturn.not_open, length buf, buf, l)
      else (kr, got, write_at 0 bytes buf, record l { reads = l.reads + 1 })

  -- The loop over the attempts, of which so many are left.
  unfoldable pub receive_frames : ℕ → List ℕ → Link → Option (ℕ × Link)
  receive_frames zero buf l = some (1, l)
  receive_frames (suc n) buf l =
      receive_one (λ buf1 l1. receive_frames n buf1 l1) (usb_bulk_in buf l)

  unfoldable pub receive_on : Bool × Link → Option (ℕ × Link)
  receive_on (false, l) = some (1, l)
  receive_on (true, l) = receive_frames 10 (replicate 4096 0) l

  unfoldable pub receive_with : Link → List ℕ → Option (ℕ × Link)
  receive_with l mac = Option.bind (bring_up mac l) receive_on

  unfoldable pub cmd_rx : Option (List ℕ) → Link → Option (ℕ × Link)
  cmd_rx mac l =
      with_mac (resolve_mac mac l.trace).0 (resolved mac l) (receive_with (resolved mac l))
