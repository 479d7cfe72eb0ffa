-- ===== src/Driver/Control.antt =====
-- dext/SMSC95xxDriver/SMSC95xxDriver.cpp: register access by vendor requests on the control pipe, and
-- what is built on it. `DeviceRequest` is a parameter, as answers that are functions of the accesses so
-- far; `present` tells that the interface and the control buffer are there.
use smsc95xx_macos.Base.{
  ℕ, zero, suc, ◌+◌, ◌-◌, ◌*◌, ◌/◌, ◌^◌, Bool, true, false, not, Option, none, some, List, [], ◌∷◌,
  if◌then◌else◌, ◌==◌, bit_and, bit_or, get_or, u8, u16, u32,
}
pub mod Registers
use smsc95xx_macos.Regs.{reg_mac_cr, reg_mii_addr, reg_mii_data, mac_cr_prms, mii_busy}
use smsc95xx_macos.Proto.Words.{mii_addr_word}
use smsc95xx_macos.Driver.Status.{KernReturn, is_success}
use smsc95xx_macos.Init.{
  Access, reg_read, reg_write, Trace, Callbacks, RegIo, then_on, write_reg, eeprom_read,
}

pub record ControlPipe : Type 0 where
  -- the result, the number of bytes transferred, and the bytes received
  pub request_in : Trace → ℕ → KernReturn × ℕ × List ℕ
  -- the result, and the number of bytes transferred
  pub request_out : Trace → ℕ → List ℕ → KernReturn × ℕ

abbrev pub poll_attempts : ℕ
poll_attempts = 100

-- The bytes of a register's value in the control buffer.
unfoldable pub register_bytes : ℕ → List ℕ
register_bytes v =
    u8 (bit_and v 0xFF)
    ∷ u8 (bit_and (v / 2 ^ 8) 0xFF)
    ∷ u8 (bit_and (v / 2 ^ 16) 0xFF)
    ∷ u8 (bit_and (v / 2 ^ 24) 0xFF)
    ∷ []

-- The value of the bytes in the control buffer.
unfoldable pub register_value : List ℕ → ℕ
register_value bytes =
    bit_or
      (bit_or (bit_or (get_or bytes 0 0) (u32 (get_or bytes 1 0 * 2 ^ 8)))
        (u32 (get_or bytes 2 0 * 2 ^ 16)))
      (u32 (get_or bytes 3 0 * 2 ^ 24))

unfoldable pub read_register : ControlPipe → Bool → Trace → ℕ → KernReturn × ℕ
read_register pipe present t offset =
    let (ret, transferred, bytes) = pipe.request_in t (u16 offset) in
    if not present
    then (KernReturn.bad_argument, 0)
    else if not (is_success ret)
    then (ret, 0)
    else if not (transferred == 4)
    then (KernReturn.underrun, 0)
    else (KernReturn.success, register_value bytes)

unfoldable pub write_register : ControlPipe → Bool → Trace → ℕ → ℕ → KernReturn
write_register pipe present t offset value =
    let (ret, transferred) = pipe.request_out t (u16 offset) (register_bytes value) in
    if not present
    then KernReturn.bad_argument
    else if not (is_success ret)
    then ret
    else if not (transferred == 4)
    then KernReturn.underrun
    else KernReturn.success

-- The thunks that the shared layer calls.
unfoldable pub control_io : ControlPipe → Bool → Callbacks
control_io pipe present = record {
  read = read_register pipe present;
  write = write_register pipe present;
}

unfoldable pub shared_result_to_io_return : KernReturn → KernReturn
shared_result_to_io_return KernReturn.init_bad_arg = KernReturn.bad_argument
shared_result_to_io_return KernReturn.init_reset_timeout = KernReturn.timeout
shared_result_to_io_return KernReturn.init_e2p_timeout = KernReturn.timeout
shared_result_to_io_return KernReturn.init_e2p_no_eeprom = KernReturn.not_found
shared_result_to_io_return r = r

module _ (io : Callbacks) where
  -- Until the mask clears, or `n` reads are over.
  unfoldable pub wait_clear : ℕ → ℕ → ℕ → Trace → KernReturn × Trace
  wait_clear offset mask zero t = (KernReturn.timeout, t)
  wait_clear offset mask (suc n) t =
      let (ret, v) = io.read t offset in
      let t1 = reg_read offset ret v ∷ t in
      let rest = wait_clear offset mask n t1 in
      if not (is_success ret)
      then (ret, t1)
      else if bit_and v mask == 0
      then (KernReturn.success, t1)
      else rest

  -- The last step of `miiRead`: the result, the value, and the accesses.
  unfoldable pub mii_data : Trace → KernReturn × ℕ × Trace
  mii_data t =
      let (ret, v) = io.read t reg_mii_data in
      (ret, if is_success ret then u16 (bit_and v 0xFFFF) else 0, reg_read reg_mii_data ret v ∷ t)

  unfoldable pub mii_read : ℕ → ℕ → Trace → KernReturn × ℕ × Trace
  mii_read phy reg t =
      let (ret, t1) = wait_clear reg_mii_addr mii_busy poll_attempts t in
      let (ret2, t2) = write_reg io reg_mii_addr (mii_addr_word phy reg false) t1 in
      let (ret3, t3) = wait_clear reg_mii_addr mii_busy poll_attempts t2 in
      if not (is_success ret)
      then (ret, 0, t1)
      else if not (is_success ret2)
      then (ret2, 0, t2)
      else if not (is_success ret3)
      then (ret3, 0, t3)
      else mii_data t3

  -- `newCr`; `~` is taken in 32 bits.
  abbrev pub promiscuous_word : Bool → ℕ → ℕ
  promiscuous_word enable mac_cr =
      if enable then bit_or mac_cr mac_cr_prms else bit_and mac_cr (2 ^ 32 - 1 - mac_cr_prms)

  unfoldable pub set_promiscuous_mode_enable : Bool → Bool → Trace → KernReturn × Trace
  set_promiscuous_mode_enable stopping enable t =
      let (ret, mac_cr) = io.read t reg_mac_cr in
      let t1 = reg_read reg_mac_cr ret mac_cr ∷ t in
      let word = promiscuous_word enable mac_cr in
      if stopping
      then (KernReturn.offline, t)
      else if not (is_success ret)
      then (ret, t1)
      else if not (word == mac_cr)
      then write_reg io reg_mac_cr word t1
      else (KernReturn.success, t1)

-- `setMaxTransferUnit`, with the base class's answer.
pub set_max_transfer_unit : (ℕ → KernReturn) → ℕ → KernReturn
set_max_transfer_unit base mtu = if not (mtu == 1500) then KernReturn.unsupported else base mtu
