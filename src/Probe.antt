-- ===== src/Probe.antt =====
-- tools/smsc95xx-probe/smsc95xx_ops.c, and the control transfers of usb_backend.c: the probe's register
-- access and what it builds on it. `DeviceRequest` is the parameter that it is for the driver.
use smsc95xx_macos.Base.{
  ℕ, zero, suc, Bool, true, false, not, ◌&&◌, Option, none, some, List, [], ◌∷◌, if◌then◌else◌,
  ◌==◌, bit_and, get_or, u16,
}
pub mod Address
pub mod Agreement
pub mod Args
pub mod Commands
pub mod Main
pub mod Backend
pub mod Device
use smsc95xx_macos.Regs.{
  reg_e2p_cmd, reg_mii_addr, reg_mii_data, reg_addrl, reg_addrh, mii_busy, mii_bmsr, phy_addr,
  e2p_loaded, eeprom_sig_offset, eeprom_mac_offset, mac_len,
}
use smsc95xx_macos.Proto.Words.{mii_addr_word, eeprom_sig_valid, bmsr_link}
use smsc95xx_macos.Proto.Mac.{mac_to_regs}
use smsc95xx_macos.Driver.Status.{KernReturn, is_success}
use smsc95xx_macos.Driver.Control.{ControlPipe, register_bytes, register_value}
use smsc95xx_macos.Init.{
  Access, reg_read, reg_write, Trace, Callbacks, RegIo, then_on, write_reg, init_seq, eeprom_read,
}

abbrev pub poll_attempts : ℕ
poll_attempts = 100

-- `usb_control_in` for a register: `there` tells that the device and its interface are. The result, and
-- the bytes left in the buffer.
unfoldable pub usb_control_in : ControlPipe → Bool → Trace → ℕ → KernReturn × List ℕ
usb_control_in pipe there t offset =
    let (kr, transferred, raw) = pipe.request_in t (u16 offset) in
    if not there
    then (KernReturn.bad_argument, [])
    else if is_success kr && not (transferred == 4)
    then (KernReturn.underrun, raw)
    else (kr, raw)

unfoldable pub usb_control_out : ControlPipe → Bool → Trace → ℕ → List ℕ → KernReturn
usb_control_out pipe there t offset raw =
    let (kr, transferred) = pipe.request_out t (u16 offset) raw in
    if not there
    then KernReturn.bad_argument
    else if is_success kr && not (transferred == 4)
    then KernReturn.underrun
    else kr

-- The result, and the value that a success stores.
unfoldable pub read_reg : ControlPipe → Bool → Trace → ℕ → KernReturn × ℕ
read_reg pipe there t offset =
    let (kr, raw) = usb_control_in pipe there t offset in
    if is_success kr then (kr, register_value raw) else (kr, 0)

unfoldable pub write_reg_out : ControlPipe → Bool → Trace → ℕ → ℕ → KernReturn
write_reg_out pipe there t offset value = usb_control_out pipe there t offset (register_bytes value)

-- `io_read` and `io_write`.
abbrev pub probe_callbacks : ControlPipe → Bool → Callbacks
probe_callbacks pipe there = record { read = read_reg pipe there; write = write_reg_out pipe there }

abbrev pub probe_io : Callbacks → Option RegIo
probe_io io = some (record { read = some io.read; write = some io.write })

unfoldable pub shared_to_ioreturn : KernReturn → KernReturn
shared_to_ioreturn KernReturn.success = KernReturn.success
shared_to_ioreturn KernReturn.init_bad_arg = KernReturn.bad_argument
shared_to_ioreturn KernReturn.init_reset_timeout = KernReturn.timeout
shared_to_ioreturn KernReturn.init_e2p_timeout = KernReturn.timeout
shared_to_ioreturn KernReturn.init_e2p_no_eeprom = KernReturn.not_found
shared_to_ioreturn r = r

module _ (pipe : ControlPipe) (there : Bool) where
  unfoldable pub wait_clear : ℕ → ℕ → ℕ → Trace → KernReturn × Trace
  wait_clear offset mask zero t = (KernReturn.timeout, t)
  wait_clear offset mask (suc n) t =
      let (kr, v) = read_reg pipe there t offset in
      let t1 = reg_read offset kr v ∷ t in
      let rest = wait_clear offset mask n t1 in
      if not (is_success kr)
      then (kr, t1)
      else if bit_and v mask == 0
      then (KernReturn.success, t1)
      else rest

  -- The result, the value, and the accesses.
  unfoldable pub mii_read : ℕ → ℕ → Trace → KernReturn × ℕ × Trace
  mii_read phy reg t =
      let (kr, t1) = wait_clear reg_mii_addr mii_busy poll_attempts t in
      let (kr2, t2) =
        write_reg (probe_callbacks pipe there) reg_mii_addr (mii_addr_word phy reg false) t1 in
      let (kr3, t3) = wait_clear reg_mii_addr mii_busy poll_attempts t2 in
      let (kr4, v) = read_reg pipe there t3 reg_mii_data in
      let t4 = reg_read reg_mii_data kr4 v ∷ t3 in
      if not (is_success kr)
      then (kr, 0, t1)
      else if not (is_success kr2)
      then (kr2, 0, t2)
      else if not (is_success kr3)
      then (kr3, 0, t3)
      else (kr4, if is_success kr4 then u16 (bit_and v 0xFFFF) else 0, t4)

  unfoldable pub probe_eeprom_read : ℕ → ℕ → Trace → KernReturn × List ℕ × Trace
  probe_eeprom_read offset len t =
      let (rc, bytes, t1) = eeprom_read (probe_io (probe_callbacks pipe there)) true offset len t in
      (shared_to_ioreturn rc, bytes, t1)

  unfoldable pub read_mac : Trace → KernReturn × List ℕ × Trace
  read_mac t = probe_eeprom_read eeprom_mac_offset mac_len t

  -- The result, what `*loaded` is set to if it is, and the accesses.
  unfoldable pub eeprom_loaded : Bool → Trace → KernReturn × Option Bool × Trace
  eeprom_loaded wanted t =
      let (kr, cmd) = read_reg pipe there t reg_e2p_cmd in
      let t1 = reg_read reg_e2p_cmd kr cmd ∷ t in
      if is_success kr && wanted
      then (kr, some (not (bit_and cmd e2p_loaded == 0)), t1)
      else (kr, none, t1)

  -- The result, the address, and the accesses.
  unfoldable pub read_mac_verified : Trace → KernReturn × List ℕ × Trace
  read_mac_verified t =
      let (kr, sig, t1) = probe_eeprom_read eeprom_sig_offset 1 t in
      if not (is_success kr)
      then (kr, [], t1)
      else if not (eeprom_sig_valid (get_or sig 0 0))
      then (KernReturn.not_readable, [], t1)
      else read_mac t1

  unfoldable pub set_mac : List ℕ → Trace → KernReturn × Trace
  set_mac mac t =
      let (addrl, addrh) = mac_to_regs mac in
      then_on (write_reg (probe_callbacks pipe there) reg_addrl addrl t)
        (write_reg (probe_callbacks pipe there) reg_addrh addrh)

  unfoldable pub link_up : Bool → Trace → KernReturn × Option Bool × Trace
  link_up wanted t =
      let (kr, bmsr, t1) = mii_read phy_addr mii_bmsr t in
      if is_success kr && wanted then (kr, some (bmsr_link bmsr), t1) else (kr, none, t1)

  unfoldable pub init : List ℕ → Bool → Trace → KernReturn × Trace
  init mac promiscuous t =
      let (rc, t1) = init_seq (probe_io (probe_callbacks pipe there)) (some mac) promiscuous t in
      (shared_to_ioreturn rc, t1)
