-- ===== src/Proto/Tx.antt =====
-- common/smsc95xx_proto.c: the 8-byte command header in front of a frame on the bulk OUT pipe.
-- The result is the number of header bytes and the buffer; lengths are `size_t`.
use smsc95xx_macos.Base.{ℕ, ◌+◌, List, bit_and, bit_or, ltb, if◌then◌else◌, ◌||◌, u32}
use smsc95xx_macos.Regs.{
  tx_header_len, frame_min, frame_max, tx_cmd_a_len_mask, tx_cmd_a_first_seg, tx_cmd_a_last_seg,
  tx_cmd_b_len_mask,
}
use smsc95xx_macos.Proto.Le32.{put_le32}
pub mod Header

pub tx_prepend : List ℕ → ℕ → ℕ → ℕ × List ℕ
tx_prepend buf buflen frame_len =
    if ltb buflen tx_header_len
    then (0, buf)
    else if ltb frame_len frame_min || ltb frame_max frame_len
    then (0, buf)
    else let len = u32 frame_len in
      let cmd_a =
        bit_or (bit_or (bit_and len tx_cmd_a_len_mask) tx_cmd_a_first_seg) tx_cmd_a_last_seg in
      let cmd_b = bit_and len tx_cmd_b_len_mask in
      (tx_header_len, put_le32 (put_le32 buf 0 cmd_a) 4 cmd_b)
