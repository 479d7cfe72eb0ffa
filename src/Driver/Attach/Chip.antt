-- ===== src/Driver/Attach/Chip.antt =====
-- dext/SMSC95xxDriver/SMSC95xxDriver.cpp: what Start asks of the chip: its identity, its PHY, its station
-- address, and its bring-up.
use smsc95xx_macos.Base.{
  ℕ, ◌*◌, ◌^◌, true, false, not, ◌&&◌, some, List, ◌∷◌, ◌==◌, if◌then◌else◌, bit_and, bit_or,
  get_or, u32,
}
use smsc95xx_macos.Regs.{
  reg_id_rev, reg_e2p_cmd, e2p_loaded, phy_addr, mii_phyid1, mii_phyid2, mii_bmsr,
  eeprom_sig_offset, eeprom_mac_offset, mac_len,
}
use smsc95xx_macos.Proto.Words.{eeprom_sig_valid, bmsr_autoneg_capable}
use smsc95xx_macos.Proto.Mac.{MacCheck, mac_plausible}
use smsc95xx_macos.Driver.Status.{KernReturn, is_success}
use smsc95xx_macos.Init.{reg_read, RegIo, Callbacks, init_seq, eeprom_read}
use smsc95xx_macos.Driver.Control.{control_io, mii_read, shared_result_to_io_return}
use smsc95xx_macos.Driver.Attach.{
  Site, Attach, Property, id_rev, phy_id, mac_address, eeprom_loaded,
}

-- The callbacks as the shared layer takes them.
abbrev pub both : Callbacks → RegIo
both io = record { read = some io.read; write = some io.write }

module _ (site : Site) where
  abbrev pub register_io : Attach → Callbacks
  register_io a = control_io site.pipe (a.driver.handles.interface && a.driver.handles.ctrl_buffer)

  unfoldable pub publish_property : Property → Attach → Attach
  publish_property p a = if site.publishes p then record a { published = p ∷ a.published } else a

  unfoldable pub read_chip_id : Attach → KernReturn × Attach
  read_chip_id a =
      let (ret, v) = (register_io a).read a.trace reg_id_rev in
      let a1 = record a { trace = reg_read reg_id_rev ret v ∷ a.trace } in
      if not (is_success ret)
      then (ret, a1)
      else (KernReturn.success, publish_property (id_rev v) a1)

  unfoldable pub read_phy_id : Attach → KernReturn × Attach
  read_phy_id a =
      let (ret, id1, t1) = mii_read (register_io a) phy_addr mii_phyid1 a.trace in
      let (ret2, id2, t2) = mii_read (register_io a) phy_addr mii_phyid2 t1 in
      if not (is_success ret)
      then (ret, record a { trace = t1 })
      else if not (is_success ret2)
      then (ret2, record a { trace = t2 })
      else (
        KernReturn.success,
        publish_property (phy_id (bit_or (u32 (id1 * 2 ^ 16)) id2)) (record a { trace = t2 }),
      )

  -- An adapter whose PHY negotiates is not one of those supported.
  unfoldable pub check_phy : Attach → KernReturn × Attach
  check_phy a =
      let (ret, bmsr, t1) = mii_read (register_io a) phy_addr mii_bmsr a.trace in
      let a1 = record a { trace = t1 } in
      if not (is_success ret)
      then (ret, a1)
      else if bmsr_autoneg_capable bmsr
      then (KernReturn.unsupported, a1)
      else (KernReturn.success, a1)

  -- `eepromRead`.
  unfoldable pub read_eeprom : ℕ → ℕ → Attach → KernReturn × List ℕ × Attach
  read_eeprom offset len a =
      let (rc, bytes, t) = eeprom_read (some (both (register_io a))) true offset len a.trace in
      (shared_result_to_io_return rc, bytes, record a { trace = t })

  -- `switch (smsc95xx_mac_plausible (mac))`, and what follows it.
  unfoldable pub accept_mac : MacCheck → List ℕ → Attach → KernReturn × Attach
  accept_mac MacCheck.plausible mac a = (
    KernReturn.success,
    record a {
      driver = record a.driver {
        life = record a.driver.life { mac_address = mac; mac_valid = true };
      };
    },
  )
  accept_mac _ mac a = (KernReturn.not_found, a)

  unfoldable pub read_mac : Attach → KernReturn × Attach
  read_mac a =
      let (ret, mac, a1) = read_eeprom eeprom_mac_offset mac_len a in
      if not (is_success ret) then (ret, a1) else accept_mac (mac_plausible mac) mac a1

  unfoldable pub check_signature : Attach → KernReturn × Attach
  check_signature a =
      let (ret, sig, a1) = read_eeprom eeprom_sig_offset 1 a in
      if not (is_success ret)
      then (ret, a1)
      else if not (eeprom_sig_valid (get_or sig 0 0))
      then (KernReturn.not_found, a1)
      else read_mac a1

  -- The station address, if the EEPROM was loaded and carries its signature.
  unfoldable pub find_mac : Attach → KernReturn × Attach
  find_mac a =
      let (ret, cmd) = (register_io a).read a.trace reg_e2p_cmd in
      let a1 = record a { trace = reg_read reg_e2p_cmd ret cmd ∷ a.trace } in
      if not (is_success ret)
      then (ret, a1)
      else if bit_and cmd e2p_loaded == 0
      then (KernReturn.not_found, a1)
      else check_signature a1

  -- From the label `mac_publish` on.
  unfoldable pub publish_mac : Attach → KernReturn × Attach
  publish_mac a = (
    KernReturn.success,
    publish_property (eeprom_loaded true)
        (publish_property (mac_address a.driver.life.mac_address) a),
  )

  unfoldable pub init_chip : Attach → KernReturn × Attach
  init_chip a =
      let (irc, t) =
        init_seq (some (both (register_io a))) (some a.driver.life.mac_address) false a.trace in
      (shared_result_to_io_return irc, record a { trace = t })
