-- ===== src/Regs/Offsets.antt =====
-- common/smsc95xx_regs.h: the vendor requests and the register offsets, passed in wIndex.
use smsc95xx_macos.Base.{ℕ}

abbrev pub req_write_register : ℕ
req_write_register = 0xA0

abbrev pub req_read_register : ℕ
req_read_register = 0xA1

abbrev pub reg_id_rev : ℕ
reg_id_rev = 0x000

abbrev pub reg_int_sts : ℕ
reg_int_sts = 0x008

abbrev pub reg_rx_cfg : ℕ
reg_rx_cfg = 0x00C

abbrev pub reg_tx_cfg : ℕ
reg_tx_cfg = 0x010

abbrev pub reg_hw_cfg : ℕ
reg_hw_cfg = 0x014

abbrev pub reg_pm_ctrl : ℕ
reg_pm_ctrl = 0x020

abbrev pub reg_led_gpio_cfg : ℕ
reg_led_gpio_cfg = 0x024

abbrev pub reg_afc_cfg : ℕ
reg_afc_cfg = 0x02C

abbrev pub reg_e2p_cmd : ℕ
reg_e2p_cmd = 0x030

abbrev pub reg_e2p_data : ℕ
reg_e2p_data = 0x034

abbrev pub reg_burst_cap : ℕ
reg_burst_cap = 0x038

abbrev pub reg_int_ep_ctl : ℕ
reg_int_ep_ctl = 0x068

abbrev pub reg_bulk_in_dly : ℕ
reg_bulk_in_dly = 0x06C

abbrev pub reg_mac_cr : ℕ
reg_mac_cr = 0x100

abbrev pub reg_addrh : ℕ
reg_addrh = 0x104

abbrev pub reg_addrl : ℕ
reg_addrl = 0x108

abbrev pub reg_hashh : ℕ
reg_hashh = 0x10C

abbrev pub reg_hashl : ℕ
reg_hashl = 0x110

abbrev pub reg_mii_addr : ℕ
reg_mii_addr = 0x114

abbrev pub reg_mii_data : ℕ
reg_mii_data = 0x118

abbrev pub reg_flow : ℕ
reg_flow = 0x11C

abbrev pub reg_vlan1 : ℕ
reg_vlan1 = 0x120

abbrev pub reg_coe_cr : ℕ
reg_coe_cr = 0x130
