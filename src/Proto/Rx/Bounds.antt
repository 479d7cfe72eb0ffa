-- ===== src/Proto/Rx/Bounds.antt =====
-- Where a decoded record lies.
use smsc95xx_macos.Base.{ℕ, ◌+◌, ◌/◌, ◌%◌, ◌^◌, ◌≤◌, ◌<◌, ◌≡◌, List, some, bit_and, arith}
use smsc95xx_macos.Base.Bits.{bit_and_low, bit_and_shifted}
use smsc95xx_macos.Proto.Le32.{get_le32}
use smsc95xx_macos.Proto.Rx.{RxRecord, rx_next}

-- The length field: the 14 bits from bit 16 on.
pub length_field : (sts : ℕ) → bit_and sts 0x3FFF0000 / 65536 ≡ sts / 65536 % 16384
length_field sts = omega (arith, bit_and_shifted 16 sts 0x3FFF, bit_and_low 14 (sts / 65536))

pub record IsInside (len at : ℕ) (r : RxRecord) : Type 0 where
  pub starts : r.frame ≡ at + 4
  pub holds_crc : 4 ≤ r.frame_len
  pub below_field : r.frame_len < 16384
  pub ends : r.frame + r.frame_len ≤ len
  pub advances : at + 8 ≤ r.offset
  pub past_frame : r.frame + r.frame_len ≤ r.offset
  pub near_end : r.offset ≤ len + 3
  pub aligned : r.offset % 4 ≡ 0

-- In a transfer below 2^62 bytes, a record that is decoded lies between the status word and the end
-- of the transfer and holds a CRC; the next offset is past it, by at most 3 bytes of padding, with
-- the alignment kept.
pub rx_next-IsInside :
    (buf : List ℕ) (len at : ℕ) {r : RxRecord}
    → len < 2 ^ 62
    → at ≤ len + 3
    → at % 4 ≡ 0
    → rx_next buf len at ≡ some r
    → IsInside len at r
unfolding rx_next
rx_next-IsInside buf len at p q a e = ground (arith, length_field (get_le32 buf at))

-- Where the walk can stand.
pub record IsOffset (count at : ℕ) : Type 0 where
  pub small : count < 2 ^ 62
  pub near : at ≤ count + 3
  pub aligned : at % 4 ≡ 0

-- The next offset is one, too.
pub rx_next-IsOffset :
    (buf : List ℕ) (len at : ℕ) (r : RxRecord)
    → IsOffset len at
    → rx_next buf len at ≡ some r
    → IsOffset len r.offset
rx_next-IsOffset buf len at r o e =
    let i = rx_next-IsInside buf len at o.small o.near o.aligned e in
    record { small = o.small; near = i.near_end; aligned = i.aligned }
