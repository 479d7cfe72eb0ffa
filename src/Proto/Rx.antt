-- ===== src/Proto/Rx.antt =====
-- common/smsc95xx_proto.c: one step of the walk over the frames of a bulk IN transfer. `size_t` has
-- 64 bits; a pointer into the buffer is its offset.
use smsc95xx_macos.Base.{
  ℕ, ◌+◌, ◌-◌, ◌/◌, ◌%◌, ◌^◌, List, Option, none, some, bit_and, ltb, if◌then◌else◌, u64,
}
use smsc95xx_macos.Regs.{rx_header_len, rx_sts_len_mask, rx_sts_len_shift, rx_crc_len}
use smsc95xx_macos.Proto.Le32.{get_le32}
pub mod Bounds
pub mod Framing

-- What a successful call stores through its pointers: `*frame`, `*frame_len`, `*status`, `*offset`.
pub record RxRecord : Type 0 where
  pub frame : ℕ
  pub frame_len : ℕ
  pub status : ℕ
  pub offset : ℕ

pub rx_next : List ℕ → ℕ → ℕ → Option RxRecord
rx_next buf len at =
    if ltb len (u64 (at + rx_header_len))
    then none
    else let sts = get_le32 buf at in
      let flen = bit_and sts rx_sts_len_mask / 2 ^ rx_sts_len_shift in
      if ltb flen rx_crc_len
      then none
      else if ltb len (u64 (at + rx_header_len + flen))
      then none
      else let used = rx_header_len + flen in
        some (record {
          frame = at + rx_header_len;
          frame_len = flen;
          status = sts;
          offset = u64 (at + used + (4 - used % 4) % 4);
        })
