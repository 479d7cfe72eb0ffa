-- ===== src/Proto/Words.antt =====
-- common/smsc95xx_proto.c: the command words of the MII and EEPROM engines, and the tests on single
-- register values.
use smsc95xx_macos.Base.{
  ℕ, ◌*◌, ◌/◌, ◌^◌, Bool, bit_and, bit_or, not, ◌==◌, if◌then◌else◌, u16, u32,
}
use smsc95xx_macos.Regs.{
  mii_busy, mii_write, mii_phy_mask, mii_phy_shift, mii_reg_mask, mii_reg_shift, e2p_busy,
  e2p_addr_mask, eeprom_signature, bmsr_link_up, bmsr_autoneg_cap,
}
pub mod Fields

unfoldable pub mii_addr_word : ℕ → ℕ → Bool → ℕ
mii_addr_word phy reg write =
    let word : ℕ = mii_busy in
    let with_phy = bit_or word (u32 (bit_and phy mii_phy_mask * 2 ^ mii_phy_shift)) in
    let with_reg = bit_or with_phy (u32 (bit_and reg mii_reg_mask * 2 ^ mii_reg_shift)) in
    if write then bit_or with_reg mii_write else with_reg

unfoldable pub e2p_read_cmd : ℕ → ℕ
e2p_read_cmd offset = bit_or e2p_busy (bit_and offset e2p_addr_mask)

-- The chip id, and the revision.
unfoldable pub id_rev_split : ℕ → ℕ × ℕ
id_rev_split id_rev = (u16 (id_rev / 2 ^ 16), u16 (bit_and id_rev 0xFFFF))

unfoldable pub eeprom_sig_valid : ℕ → Bool
eeprom_sig_valid sig = sig == eeprom_signature

pub bmsr_link : ℕ → Bool
bmsr_link bmsr = not (bit_and bmsr bmsr_link_up == 0)

unfoldable pub bmsr_autoneg_capable : ℕ → Bool
bmsr_autoneg_capable bmsr = not (bit_and bmsr bmsr_autoneg_cap == 0)
