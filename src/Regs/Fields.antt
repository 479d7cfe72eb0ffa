-- ===== src/Regs/Fields.antt =====
-- common/smsc95xx_regs.h: the bits of MII_ADDR, E2P_CMD, HW_CFG, MAC_CR and the PHY registers,
-- and the layout of the EEPROM.
use smsc95xx_macos.Base.{ℕ, ◌+◌}

abbrev pub mii_busy : ℕ
mii_busy = 0x00000001

abbrev pub mii_write : ℕ
mii_write = 0x00000002

abbrev pub mii_phy_shift : ℕ
mii_phy_shift = 11

abbrev pub mii_reg_shift : ℕ
mii_reg_shift = 6

abbrev pub mii_phy_mask : ℕ
mii_phy_mask = 0x1F

abbrev pub mii_reg_mask : ℕ
mii_reg_mask = 0x1F

abbrev pub e2p_busy : ℕ
e2p_busy = 0x80000000

abbrev pub e2p_timeout : ℕ
e2p_timeout = 0x00000400

abbrev pub e2p_loaded : ℕ
e2p_loaded = 0x00000200

abbrev pub e2p_addr_mask : ℕ
e2p_addr_mask = 0x000001FF

abbrev pub e2p_size : ℕ
e2p_size = e2p_addr_mask + 1

abbrev pub hw_cfg_srst : ℕ
hw_cfg_srst = 0x00000001

abbrev pub hw_cfg_bce : ℕ
hw_cfg_bce = 0x00000002

abbrev pub hw_cfg_psel : ℕ
hw_cfg_psel = 0x00000004

abbrev pub hw_cfg_lrst : ℕ
hw_cfg_lrst = 0x00000008

abbrev pub hw_cfg_mef : ℕ
hw_cfg_mef = 0x00000020

abbrev pub hw_cfg_bir : ℕ
hw_cfg_bir = 0x00001000

abbrev pub mac_cr_rxen : ℕ
mac_cr_rxen = 0x00000004

abbrev pub mac_cr_txen : ℕ
mac_cr_txen = 0x00000008

abbrev pub mac_cr_hpfilt : ℕ
mac_cr_hpfilt = 0x00002000

abbrev pub mac_cr_prms : ℕ
mac_cr_prms = 0x00040000

abbrev pub mac_cr_fdpx : ℕ
mac_cr_fdpx = 0x00100000

abbrev pub mac_cr_rcvown : ℕ
mac_cr_rcvown = 0x00800000

abbrev pub mii_bmcr : ℕ
mii_bmcr = 0x00

abbrev pub mii_bmsr : ℕ
mii_bmsr = 0x01

abbrev pub mii_phyid1 : ℕ
mii_phyid1 = 0x02

abbrev pub mii_phyid2 : ℕ
mii_phyid2 = 0x03

abbrev pub mii_anar : ℕ
mii_anar = 0x04

abbrev pub mii_anlpar : ℕ
mii_anlpar = 0x05

abbrev pub bmsr_link_up : ℕ
bmsr_link_up = 0x0004

abbrev pub bmsr_autoneg_cap : ℕ
bmsr_autoneg_cap = 0x0008

abbrev pub phy_addr : ℕ
phy_addr = 0

abbrev pub eeprom_sig_offset : ℕ
eeprom_sig_offset = 0x00

abbrev pub eeprom_signature : ℕ
eeprom_signature = 0xA5

abbrev pub eeprom_mac_offset : ℕ
eeprom_mac_offset = 0x01

abbrev pub mac_len : ℕ
mac_len = 6

abbrev pub mac_locally_administered : ℕ
mac_locally_administered = 0x02
