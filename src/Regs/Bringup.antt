-- ===== src/Regs/Bringup.antt =====
-- common/smsc95xx_regs.h: the register values of the captured bring-up.
use smsc95xx_macos.Base.{ℕ}

abbrev pub hw_cfg_init_1 : ℕ
hw_cfg_init_1 = 0x00001004

abbrev pub hw_cfg_init_2 : ℕ
hw_cfg_init_2 = 0x00001026

abbrev pub burst_cap_init : ℕ
burst_cap_init = 0x00000005

abbrev pub bulk_in_dly_init : ℕ
bulk_in_dly_init = 0x00002000

abbrev pub led_gpio_cfg_init : ℕ
led_gpio_cfg_init = 0x81110007

abbrev pub afc_cfg_init : ℕ
afc_cfg_init = 0x00F830A1

abbrev pub afc_cfg_half_duplex_bits : ℕ
afc_cfg_half_duplex_bits = 0x0000000F

abbrev pub vlan1_init : ℕ
vlan1_init = 0x00008100

abbrev pub int_sts_clear_all : ℕ
int_sts_clear_all = 0xFFFFFFFF

abbrev pub tx_cfg_on : ℕ
tx_cfg_on = 0x00000004

abbrev pub pm_ctrl_phy_rst : ℕ
pm_ctrl_phy_rst = 0x00000010
