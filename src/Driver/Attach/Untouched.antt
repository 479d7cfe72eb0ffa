-- ===== src/Driver/Attach/Untouched.antt =====
-- What the steps that talk to the chip leave alone.
use smsc95xx_macos.Base.{ℕ, ◌≡◌, refl, not, List, ◌∷◌, ◌==◌, if-cases, bit_and, get_or, arith}
use smsc95xx_macos.Regs.{reg_e2p_cmd, e2p_loaded, eeprom_sig_offset, eeprom_mac_offset, mac_len}
use smsc95xx_macos.Proto.Words.{eeprom_sig_valid}
use smsc95xx_macos.Proto.Mac.{MacCheck, mac_plausible}
use smsc95xx_macos.Driver.Status.{KernReturn, is_success}
use smsc95xx_macos.Init.{reg_read}
use smsc95xx_macos.Driver.Attach.{Site, Attach, Property, Step}
use smsc95xx_macos.Driver.Attach.Chip.{
  register_io, read_eeprom, publish_property, read_chip_id, read_phy_id, check_phy, accept_mac,
  read_mac, check_signature, find_mac, publish_mac, init_chip,
}
use smsc95xx_macos.Driver.Attach.Kept.{Early}

abbrev pub Untouched : Attach → Attach → Type 0
Untouched a b =
    (b.driver.handles ≡ a.driver.handles)
    × (b.driver.tx ≡ a.driver.tx)
    × (b.driver.history ≡ a.driver.history)
    × (b.driver.life.interface_opened ≡ a.driver.life.interface_opened)
    × (b.registered ≡ a.registered)

pub Untouched-Early : (a b : Attach) → Untouched a b → Early a → Early b
Untouched-Early a b u e = record {
  unsent = rw u.2 e.unsent;
  packet = rw u.1 e.packet;
  idle = rw u.1 e.idle;
  counts = rw u.1 e.counts;
  opened = rw (u.0, u.3) e.opened;
  balance = rw (u.2, u.3) e.balance;
  unregistered = rw u.4 e.unregistered;
}

module _ (site : Site) where
  abbrev Chip : Step → Type 0
  Chip f = (a : Attach) → Untouched a (f a).1

  publish-Untouched : (p : Property) (a : Attach) → Untouched a (publish_property site p a)
  unfolding publish_property
  publish-Untouched p a = ground arith

  pub read_chip_id-Chip : Chip (read_chip_id site)
  unfolding read_chip_id publish_property
  read_chip_id-Chip a = ground arith

  pub read_phy_id-Chip : Chip (read_phy_id site)
  unfolding read_phy_id publish_property
  read_phy_id-Chip a = ground arith

  pub check_phy-Chip : Chip (check_phy site)
  unfolding check_phy
  check_phy-Chip a = ground arith

  pub accept_mac-Chip : (c : MacCheck) (mac : List ℕ) → Chip (accept_mac site c mac)
  unfolding accept_mac
  accept_mac-Chip MacCheck.plausible mac a = (refl, refl, refl, refl, refl)
  accept_mac-Chip _ mac a = (refl, refl, refl, refl, refl)

  pub find_mac-Chip : Chip (find_mac site)
  unfolding find_mac check_signature read_mac read_eeprom
  find_mac-Chip a =
      let (ret, cmd) = (register_io site a).read a.trace reg_e2p_cmd in
      let a1 = record a { trace = reg_read reg_e2p_cmd ret cmd ∷ a.trace } in
      let (rs, sig, a2) = read_eeprom site eeprom_sig_offset 1 a1 in
      let (rm, mac, a3) = read_eeprom site eeprom_mac_offset mac_len a2 in
      let P = λ (o : KernReturn × Attach). Untouched a o.1 in
      if-cases P (not (is_success ret)) _ _ (λ _. (refl, refl, refl, refl, refl))
        (λ _.
          if-cases P (bit_and cmd e2p_loaded == 0) _ _ (λ _. (refl, refl, refl, refl, refl))
            (λ _.
              if-cases P (not (is_success rs)) _ _ (λ _. (refl, refl, refl, refl, refl))
                (λ _.
                  if-cases P (not (eeprom_sig_valid (get_or sig 0 0))) _ _
                    (λ _. (refl, refl, refl, refl, refl))
                    (λ _.
                      if-cases P (not (is_success rm)) _ _ (λ _. (refl, refl, refl, refl, refl))
                        (λ _. accept_mac-Chip (mac_plausible mac) mac a3)))))

  pub publish_mac-Chip : Chip (publish_mac site)
  unfolding publish_mac publish_property
  publish_mac-Chip a = ground arith

  pub init_chip-Chip : Chip (init_chip site)
  unfolding init_chip
  init_chip-Chip a = (refl, refl, refl, refl, refl)
