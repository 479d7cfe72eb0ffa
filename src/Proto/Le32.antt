-- ===== src/Proto/Le32.antt =====
-- common/smsc95xx_proto.c: a 32-bit number as four little-endian bytes at an offset of a buffer.
use smsc95xx_macos.Base.{
  ℕ, ◌+◌, ◌*◌, ◌/◌, ◌%◌, ◌^◌, ◌<◌, ◌≡◌, ◌∙◌, List, [], ◌∷◌, ◌++◌, bit_and, bit_or, u8, u32, get_or,
  write_at, arith,
}
use smsc95xx_macos.Base.Bits.{bit_and_low, bit_or_disjoint, bit_or_comm}

-- `put_le32 (buf + p, v)`.
unfoldable pub put_le32 : List ℕ → ℕ → ℕ → List ℕ
put_le32 buf p v =
    write_at p
      (u8 (bit_and v 0xFF)
        ∷ u8 (bit_and (v / 2 ^ 8) 0xFF)
        ∷ u8 (bit_and (v / 2 ^ 16) 0xFF)
        ∷ u8 (bit_and (v / 2 ^ 24) 0xFF)
        ∷ [])
      buf

-- `get_le32 (buf + p)`.
unfoldable pub get_le32 : List ℕ → ℕ → ℕ
get_le32 buf p =
    bit_or
      (bit_or (bit_or (get_or buf p 0) (u32 (get_or buf (p + 1) 0 * 2 ^ 8)))
        (u32 (get_or buf (p + 2) 0 * 2 ^ 16)))
      (u32 (get_or buf (p + 3) 0 * 2 ^ 24))

-- `|` of bytes in their places is their sum.
or_above : (k v w : ℕ) → v < 2 ^ k → bit_or v (w * 2 ^ k) ≡ v + w * 2 ^ k
or_above k v w h = bit_or_comm v (w * 2 ^ k) ∙ bit_or_disjoint k w v h ∙ omega arith

pub or_bytes :
    (a b c d : ℕ)
    → a < 256
    → b < 256
    → c < 256
    → d < 256
    → bit_or (bit_or (bit_or a (u32 (b * 2 ^ 8))) (u32 (c * 2 ^ 16))) (u32 (d * 2 ^ 24))
      ≡ a + b * 256 + c * 65536 + d * 16777216
or_bytes a b c d p q r s = ground (
  arith,
  or_above 8 a b p,
  or_above 16 (a + b * 256) c (omega arith),
  or_above 24 (a + b * 256 + c * 65536) d (omega arith),
)

pub or_two_bytes : (a b : ℕ) → a < 256 → b < 256 → bit_or a (u32 (b * 2 ^ 8)) ≡ a + b * 256
or_two_bytes a b p q = ground (arith, or_above 8 a b p)

-- The four bytes, without masks and casts.
abbrev pub le_bytes : ℕ → List ℕ
le_bytes v = v % 256 ∷ (v / 256 % 256) ∷ (v / 65536 % 256) ∷ (v / 16777216 % 256) ∷ []

pub put_le32_bytes : (buf : List ℕ) (p v : ℕ) → put_le32 buf p v ≡ write_at p (le_bytes v) buf
unfolding put_le32
put_le32_bytes buf p v = rw (
  bit_and_low 8 v,
  bit_and_low 8 (v / 2 ^ 8),
  bit_and_low 8 (v / 2 ^ 16),
  bit_and_low 8 (v / 2 ^ 24),
  twice v,
  twice (v / 256),
  twice (v / 65536),
  twice (v / 16777216),
)
  where
    twice : (x : ℕ) → x % 256 % 256 ≡ x % 256
    twice x = omega arith

-- Reading back the number that four bytes hold.
pub get-le_bytes : (v : ℕ) (rest : List ℕ) → v < 2 ^ 32 → get_le32 (le_bytes v ++ rest) 0 ≡ v
unfolding get_le32
get-le_bytes v rest h =
    or_bytes (v % 256) (v / 256 % 256) (v / 65536 % 256) (v / 16777216 % 256) (omega arith)
      (omega arith) (omega arith) (omega arith)
    ∙ omega arith
