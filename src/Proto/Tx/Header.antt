-- ===== src/Proto/Tx/Header.antt =====
-- The command header says the frame's length twice, marks a single segment, and leaves the rest of
-- the buffer alone; a length out of range writes nothing.
use smsc95xx_macos.Base.{
  ℕ, ◌+◌, ◌≤◌, ◌<◌, ◌≡◌, refl, ◌⊎◌, List, [], ◌∷◌, ◌++◌, drop, length, length-drop, bit_or, arith,
}
use smsc95xx_macos.Base.Bits.{bit_and_low, bit_or_split, bit_or-zero, bit_or_comm}
use smsc95xx_macos.Proto.Le32.{le_bytes, put_le32, put_le32_bytes}
use smsc95xx_macos.Proto.Tx.{tx_prepend}

-- The header of a frame of `n` bytes: FIRST_SEG, LAST_SEG and the length, then the length.
abbrev pub header : ℕ → List ℕ
header n = le_bytes (n + 0x3000) ++ le_bytes n

command_a : (n : ℕ) → n < 2048 → bit_or (bit_or n 0x2000) 0x1000 ≡ n + 0x3000
command_a n h = ground (
  arith,
  bit_or_split 13 0 n 1 0 (omega arith) (omega arith),
  bit_or-zero n,
  bit_or_comm 0 1,
  bit_or_split 12 2 n 1 0 (omega arith) (omega arith),
)

drop_rest : (buf : List ℕ) → drop 4 (drop 4 buf) ≡ drop 8 buf
drop_rest [] = refl
drop_rest (a ∷ []) = refl
drop_rest (a ∷ b ∷ []) = refl
drop_rest (a ∷ b ∷ c ∷ []) = refl
drop_rest (a ∷ b ∷ c ∷ d ∷ rest) = refl

commands :
    (buf : List ℕ) (a b : ℕ)
    → put_le32 (put_le32 buf 0 a) 4 b ≡ (le_bytes a ++ le_bytes b) ++ drop 8 buf
commands buf a b =
    rw (put_le32_bytes buf 0 a, put_le32_bytes (le_bytes a ++ drop 4 buf) 4 b, drop_rest buf)

pub tx_prepend_writes :
    (buf : List ℕ) (buflen n : ℕ)
    → 8 ≤ buflen
    → 42 ≤ n
    → n ≤ 1514
    → tx_prepend buf buflen n ≡ (8, header n ++ drop 8 buf)
unfolding tx_prepend
tx_prepend_writes buf buflen n big low high =
    ground (arith, bit_and_low 11 n, command_a n (omega arith), commands buf (n + 0x3000) n)

-- For every length from 42 to 1514, a buffer that holds the header gets it in its first 8 bytes and
-- keeps its other bytes and its size, and 8 is reported.
pub tx_prepend-header :
    (buf : List ℕ) (n : ℕ)
    → 8 ≤ length buf
    → 42 ≤ n
    → n ≤ 1514
    → (tx_prepend buf (length buf) n ≡ (8, header n ++ drop 8 buf))
      × (length (tx_prepend buf (length buf) n).1 ≡ length buf)
tx_prepend-header buf n big low high =
    let writes = tx_prepend_writes buf (length buf) n big low high in
    (writes, rw writes (omega (arith, length-drop 8 buf)))

-- Any other length, and a buffer that is too short, writes nothing and reports 0 bytes.
pub tx_prepend_refuses :
    (buf : List ℕ) (buflen n : ℕ)
    → (buflen < 8) ⊎ ((n < 42) ⊎ (1514 < n))
    → tx_prepend buf buflen n ≡ (0, buf)
unfolding tx_prepend
tx_prepend_refuses buf buflen n h = ground arith
