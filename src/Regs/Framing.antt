-- ===== src/Regs/Framing.antt =====
-- common/smsc95xx_regs.h: the framing of the bulk transfers, both ways.
use smsc95xx_macos.Base.{ℕ}

abbrev pub tx_header_len : ℕ
tx_header_len = 8

abbrev pub tx_cmd_a_len_mask : ℕ
tx_cmd_a_len_mask = 0x000007FF

abbrev pub tx_cmd_a_last_seg : ℕ
tx_cmd_a_last_seg = 0x00001000

abbrev pub tx_cmd_a_first_seg : ℕ
tx_cmd_a_first_seg = 0x00002000

abbrev pub tx_cmd_b_len_mask : ℕ
tx_cmd_b_len_mask = 0x000007FF

abbrev pub frame_min : ℕ
frame_min = 42

abbrev pub frame_max : ℕ
frame_max = 1514

abbrev pub rx_header_len : ℕ
rx_header_len = 4

abbrev pub rx_sts_filter_fail : ℕ
rx_sts_filter_fail = 0x40000000

abbrev pub rx_sts_len_mask : ℕ
rx_sts_len_mask = 0x3FFF0000

abbrev pub rx_sts_len_shift : ℕ
rx_sts_len_shift = 16

abbrev pub rx_sts_error_sum : ℕ
rx_sts_error_sum = 0x00008000

abbrev pub rx_sts_broadcast : ℕ
rx_sts_broadcast = 0x00002000

abbrev pub rx_sts_length_error : ℕ
rx_sts_length_error = 0x00001000

abbrev pub rx_sts_runt : ℕ
rx_sts_runt = 0x00000800

abbrev pub rx_sts_multicast : ℕ
rx_sts_multicast = 0x00000400

abbrev pub rx_sts_too_long : ℕ
rx_sts_too_long = 0x00000080

abbrev pub rx_sts_collision : ℕ
rx_sts_collision = 0x00000040

abbrev pub rx_sts_frame_type : ℕ
rx_sts_frame_type = 0x00000020

abbrev pub rx_sts_watchdog : ℕ
rx_sts_watchdog = 0x00000010

abbrev pub rx_sts_mii_error : ℕ
rx_sts_mii_error = 0x00000008

abbrev pub rx_sts_dribbling : ℕ
rx_sts_dribbling = 0x00000004

abbrev pub rx_sts_crc_error : ℕ
rx_sts_crc_error = 0x00000002

abbrev pub rx_crc_len : ℕ
rx_crc_len = 4
