-- ===== src/Proto/Words/Fields.antt =====
-- The fields of the command words, taken out again.
use smsc95xx_macos.Base.{ℕ, ◌+◌, ◌*◌, ◌/◌, ◌%◌, ◌<◌, ◌≡◌, ◌∙◌, Bool, bit_or, if◌then◌else◌, arith}
use smsc95xx_macos.Base.Bits.{bit_and_low, bit_or_split, bit_or_disjoint, bit_or_comm, bit_or-zero}
use smsc95xx_macos.Proto.Words.{mii_addr_word, e2p_read_cmd}

-- BUSY and the fields of the PHY and of the register do not meet.
phy_field : (phy : ℕ) → bit_or 1 (phy * 2048) ≡ phy * 2048 + 1
phy_field phy = bit_or_comm 1 (phy * 2048) ∙ bit_or_disjoint 11 phy 1 (omega arith)

reg_field :
    (phy reg : ℕ) → reg < 32 → bit_or (phy * 2048 + 1) (reg * 64) ≡ phy * 2048 + (reg * 64 + 1)
reg_field phy reg h = ground (
  arith,
  bit_or_split 11 phy 1 0 (reg * 64) (omega arith) (omega arith),
  bit_or-zero phy,
  bit_or_comm 1 (reg * 64),
  bit_or_disjoint 6 reg 1 (omega arith),
)

-- WRITE is the place next to BUSY.
write_field : (phy reg : ℕ) → bit_or (phy * 2048 + (reg * 64 + 1)) 2 ≡ phy * 2048 + (reg * 64 + 3)
write_field phy reg = ground (
  arith,
  bit_or_split 6 (phy * 32 + reg) 1 0 2 (omega arith) (omega arith),
  bit_or-zero (phy * 32 + reg),
)

mii_sum :
    (phy reg : ℕ) (write : Bool)
    → mii_addr_word phy reg write ≡ phy % 32 * 2048 + (reg % 32 * 64 + (if write then 3 else 1))
unfolding mii_addr_word
mii_sum phy reg write = ground (
  arith,
  bit_and_low 5 phy,
  bit_and_low 5 reg,
  phy_field (phy % 32),
  reg_field (phy % 32) (reg % 32) (omega arith),
  write_field (phy % 32) (reg % 32),
)

-- The MII_ADDR word always has BUSY set, has WRITE set exactly for a write, and holds the low five
-- bits of the PHY address and of the register number in their fields and nothing else.
pub mii_addr_word_fields :
    (phy reg : ℕ) (write : Bool)
    → (mii_addr_word phy reg write % 64 ≡ (if write then 3 else 1))
      × (mii_addr_word phy reg write / 64 % 32 ≡ reg % 32)
      × (mii_addr_word phy reg write / 2048 ≡ phy % 32)
mii_addr_word_fields phy reg write = ground (arith, mii_sum phy reg write)

-- The E2P_CMD word of a read is BUSY over the low nine bits of the offset.
pub e2p_read_cmd_fields : (offset : ℕ) → e2p_read_cmd offset ≡ 0x8000_0000 + offset % 512
unfolding e2p_read_cmd
e2p_read_cmd_fields offset =
    ground (arith, bit_and_low 9 offset, bit_or_disjoint 31 1 (offset % 512) (omega arith))
