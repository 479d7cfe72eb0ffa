-- ===== src/Init.antt =====
-- common/smsc95xx_init.c: the bring-up sequence and the EEPROM reader, over the register callbacks of
-- smsc95xx_init.h. The callbacks' answers are functions of the accesses so far, latest first; a result
-- of 0 is `success`.
use smsc95xx_macos.Base.{
  ℕ, zero, suc, ◌+◌, ◌-◌, ◌%◌, ◌^◌, Bool, true, false, not, ◌&&◌, ◌||◌, Option, none, some, List,
  [], ◌∷◌, ◌++◌, if◌then◌else◌, ltb, ◌==◌, bit_and, bit_or, u8, u16,
}
pub mod Sequence
pub mod Eeprom
use smsc95xx_macos.Regs.{
  hw_cfg_init_1, hw_cfg_init_2, burst_cap_init, bulk_in_dly_init, led_gpio_cfg_init, afc_cfg_init,
  afc_cfg_half_duplex_bits, vlan1_init, int_sts_clear_all, tx_cfg_on, pm_ctrl_phy_rst, e2p_busy,
  e2p_timeout, e2p_size, hw_cfg_lrst, mac_cr_rxen, mac_cr_txen, mac_cr_prms, mac_cr_rcvown,
  reg_int_sts, reg_tx_cfg, reg_hw_cfg, reg_pm_ctrl, reg_led_gpio_cfg, reg_afc_cfg, reg_e2p_cmd,
  reg_e2p_data, reg_burst_cap, reg_bulk_in_dly, reg_mac_cr, reg_addrh, reg_addrl, reg_hashh,
  reg_hashl, reg_flow, reg_vlan1,
}
use smsc95xx_macos.Proto.Mac.{mac_to_regs}
use smsc95xx_macos.Proto.Words.{e2p_read_cmd}
use smsc95xx_macos.Driver.Status.{KernReturn, is_success}

pub data Access : Type 0 where
  -- the register, the result, and the value that a success stored
  reg_read : ℕ → KernReturn → ℕ → Access
  -- the register, the value, and the result
  reg_write : ℕ → ℕ → KernReturn → Access

abbrev pub Trace : Type 0
Trace = List Access

-- `smsc95xx_io`. A null callback is `none`.
pub record RegIo : Type 0 where
  pub read : Option (Trace → ℕ → KernReturn × ℕ)
  pub write : Option (Trace → ℕ → ℕ → KernReturn)

-- The callbacks, once they are known not to be null.
pub record Callbacks : Type 0 where
  pub read : Trace → ℕ → KernReturn × ℕ
  pub write : Trace → ℕ → ℕ → KernReturn

abbrev pub usable : Option RegIo → Option Callbacks
usable none = none
usable (some io) = elim io.read [
  | none ↦ none
  | some r ↦ elim io.write [ none ↦ none | some w ↦ some (record { read = r; write = w }) ]
]

abbrev pub init_reset_polls : ℕ
init_reset_polls = 100

abbrev pub init_e2p_polls : ℕ
init_e2p_polls = 100

abbrev pub init_write_count : ℕ
init_write_count = 20

-- What follows a statement that returns on failure.
abbrev pub then_on : KernReturn × Trace → (Trace → KernReturn × Trace) → KernReturn × Trace
then_on (r, t) k = if is_success r then k t else (r, t)

module _ (io : Callbacks) where
  -- The macro `WR`.
  abbrev pub write_reg : ℕ → ℕ → Trace → KernReturn × Trace
  write_reg reg value t = let r = io.write t reg value in (r, reg_write reg value r ∷ t)

  -- Consecutive uses of `WR`.
  unfoldable pub write_all : List (ℕ × ℕ) → Trace → KernReturn × Trace
  write_all [] t = (KernReturn.success, t)
  write_all ((reg, value) ∷ ws) t = then_on (write_reg reg value t) (write_all ws)

  -- Reading a register until a bit of it is clear, at most `n` times: the result, the last value read,
  -- and the accesses.
  unfoldable pub poll_clear : ℕ → ℕ → KernReturn → ℕ → ℕ → Trace → KernReturn × ℕ × Trace
  poll_clear reg mask late zero v t = (late, v, t)
  poll_clear reg mask late (suc n) v t =
      let (r, w) = io.read t reg in
      let t1 = reg_read reg r w ∷ t in
      let rest = poll_clear reg mask late n w t1 in
      if not (is_success r)
      then (r, v, t1)
      else if bit_and w mask == 0
      then (KernReturn.success, w, t1)
      else rest

  -- The writes from the station address to AFC_CFG's half-duplex bits.
  abbrev pub bring_up_writes : List ℕ → Bool → List (ℕ × ℕ)
  bring_up_writes mac promiscuous =
      let (addrl, addrh) = mac_to_regs mac in
      let mac_cr0 = bit_or (bit_or mac_cr_txen mac_cr_rxen) mac_cr_rcvown in
      let mac_cr = if promiscuous then bit_or mac_cr0 mac_cr_prms else mac_cr0 in
      (reg_addrl, addrl)
      ∷ (reg_addrh, addrh)
      ∷ (reg_hw_cfg, hw_cfg_init_1)
      ∷ (reg_burst_cap, burst_cap_init)
      ∷ (reg_bulk_in_dly, bulk_in_dly_init)
      ∷ (reg_hw_cfg, hw_cfg_init_2)
      ∷ (reg_int_sts, int_sts_clear_all)
      ∷ (reg_led_gpio_cfg, led_gpio_cfg_init)
      ∷ (reg_flow, 0)
      ∷ (reg_afc_cfg, afc_cfg_init)
      ∷ (reg_vlan1, vlan1_init)
      ∷ (reg_hashh, 0)
      ∷ (reg_hashl, 0)
      ∷ (reg_mac_cr, 0)
      ∷ (reg_mac_cr, mac_cr_txen)
      ∷ (reg_tx_cfg, tx_cfg_on)
      ∷ (reg_mac_cr, mac_cr)
      ∷ (reg_afc_cfg, bit_or afc_cfg_init afc_cfg_half_duplex_bits)
      ∷ []

  -- The read-modify-write of PM_CTRL.
  unfoldable pub reset_phy : Trace → KernReturn × Trace
  reset_phy t =
      let (r, v) = io.read t reg_pm_ctrl in
      let t1 = reg_read reg_pm_ctrl r v ∷ t in
      if not (is_success r)
      then (r, t1)
      else write_all ((reg_pm_ctrl, bit_or v pm_ctrl_phy_rst) ∷ []) t1

  unfoldable pub init_run : List ℕ → Bool → Trace → KernReturn × Trace
  init_run mac promiscuous t = then_on (write_all ((reg_hw_cfg, hw_cfg_lrst) ∷ []) t) (λ t1.
      let (r, v, t2) =
        poll_clear reg_hw_cfg hw_cfg_lrst KernReturn.init_reset_timeout init_reset_polls 0 t1 in
      then_on (r, t2) (λ t3. then_on (write_all (bring_up_writes mac promiscuous) t3) reset_phy))

  -- One byte of the EEPROM: the result, the byte, and the accesses.
  unfoldable pub eeprom_byte : ℕ → Trace → KernReturn × ℕ × Trace
  eeprom_byte address t =
      let (wr, t1) = write_all ((reg_e2p_cmd, e2p_read_cmd (u16 address)) ∷ []) t in
      let (pr, cmd, t2) =
        poll_clear reg_e2p_cmd e2p_busy KernReturn.init_e2p_timeout init_e2p_polls 0 t1 in
      let (dr, v) = io.read t2 reg_e2p_data in
      if not (is_success wr)
      then (wr, 0, t1)
      else if not (is_success pr)
      then (pr, 0, t2)
      else if not (bit_and cmd e2p_timeout == 0)
      then (KernReturn.init_e2p_no_eeprom, 0, t2)
      else (dr, bit_and v 0xFF, reg_read reg_e2p_data dr v ∷ t2)

  -- The loop over the bytes: the result, the bytes stored, and the accesses.
  unfoldable pub eeprom_bytes : ℕ → ℕ → Trace → KernReturn × List ℕ × Trace
  eeprom_bytes address zero t = (KernReturn.success, [], t)
  eeprom_bytes address (suc n) t =
      let (r, b, t1) = eeprom_byte address t in
      let (r1, bs, t2) = eeprom_bytes (address + 1) n t1 in
      if is_success r then (r1, u8 b ∷ bs, t2) else (r, [], t1)

  unfoldable pub eeprom_run : ℕ → ℕ → Trace → KernReturn × List ℕ × Trace
  eeprom_run offset len t =
      if ltb e2p_size len || ltb (e2p_size - len) offset
      then (KernReturn.init_bad_arg, [], t)
      else let (r, v, t1) =
          poll_clear reg_e2p_cmd e2p_busy KernReturn.init_e2p_timeout init_e2p_polls 0 t in
        let rest = eeprom_bytes offset len t1 in if not (is_success r) then (r, [], t1) else rest

-- Past the checks for null, or refused by them.
unfoldable pub init_checked : Option Callbacks → Option (List ℕ) → Bool → Trace → KernReturn × Trace
init_checked none mac promiscuous t = (KernReturn.init_bad_arg, t)
init_checked (some c) none promiscuous t = (KernReturn.init_bad_arg, t)
init_checked (some c) (some mac) promiscuous t = init_run c mac promiscuous t

-- `smsc95xx_init_seq`. A null `mac` is `none`.
unfoldable pub init_seq : Option RegIo → Option (List ℕ) → Bool → Trace → KernReturn × Trace
init_seq io mac promiscuous t = init_checked (usable io) mac promiscuous t

unfoldable pub eeprom_checked :
    Option Callbacks → Bool → ℕ → ℕ → Trace → KernReturn × List ℕ × Trace
eeprom_checked none buf offset len t = (KernReturn.init_bad_arg, [], t)
eeprom_checked (some c) false offset len t = (KernReturn.init_bad_arg, [], t)
eeprom_checked (some c) true offset len t = eeprom_run c offset len t

-- `smsc95xx_eeprom_read`, with a buffer or none.
unfoldable pub eeprom_read : Option RegIo → Bool → ℕ → ℕ → Trace → KernReturn × List ℕ × Trace
eeprom_read io buf offset len t = eeprom_checked (usable io) buf offset len t
