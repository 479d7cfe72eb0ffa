-- ===== src/Proto/Rx/Framing.antt =====
-- The walk against the device's framing: a status word, the frame with its CRC, padding.
use smsc95xx_macos.Base.{
  ℕ, suc, ◌+◌, ◌-◌, ◌/◌, ◌%◌, ◌^◌, ◌≤◌, ◌<◌, ◌≡◌, ◌∙◌, ap, List, [], ◌∷◌, ◌++◌, some, length,
  length-append, get_or, arith,
}
use smsc95xx_macos.Proto.Le32.{get_le32, le_bytes, get-le_bytes}
use smsc95xx_macos.Proto.Rx.{rx_next}
use smsc95xx_macos.Proto.Rx.Bounds.{length_field}

-- A record as the device writes it.
pub record Framed : Type 0 where
  pub status : ℕ
  pub bytes : List ℕ
  pub padding : List ℕ

abbrev pub framed_bytes : Framed → List ℕ
framed_bytes f = le_bytes f.status ++ (f.bytes ++ f.padding)

-- The status word has 32 bits, its length field counts the frame with its CRC, and the padding fills
-- up to the next multiple of 4.
pub record IsFramed (f : Framed) : Type 0 where
  pub word : f.status < 2 ^ 32
  pub counted : f.status / 65536 % 16384 ≡ length f.bytes
  pub crc : 4 ≤ length f.bytes
  pub padded : length f.padding ≡ (4 - (4 + length f.bytes) % 4) % 4

get_or-append : (pre xs : List ℕ) (i : ℕ) → get_or (pre ++ xs) (length pre + i) 0 ≡ get_or xs i 0
get_or-append [] xs i = ap (λ (t : ℕ). get_or xs t 0) (omega arith)
get_or-append (x ∷ pre) xs i =
    let next : suc (length pre) + i ≡ suc (length pre + i) = omega arith in
    ap (λ (t : ℕ). get_or (x ∷ (pre ++ xs)) t 0) next ∙ get_or-append pre xs i

get_le32-append : (pre xs : List ℕ) → get_le32 (pre ++ xs) (length pre) ≡ get_le32 xs 0
unfolding get_le32
get_le32-append pre xs =
    rw (start, get_or-append pre xs 1, get_or-append pre xs 2, get_or-append pre xs 3)
  where
    start : get_or (pre ++ xs) (length pre) 0 ≡ get_or xs 0 0
    start = ap (λ (t : ℕ). get_or (pre ++ xs) t 0) (omega arith) ∙ get_or-append pre xs 0

length-framed : (f : Framed) → length (framed_bytes f) ≡ 4 + length f.bytes + length f.padding
length-framed f = omega (arith, length-append f.bytes f.padding)

length-transfer :
    (pre : List ℕ) (f : Framed) (rest : List ℕ)
    → length (pre ++ (framed_bytes f ++ rest)) ≡ length pre + length (framed_bytes f) + length rest
length-transfer pre f rest =
    omega (arith, length-append pre (framed_bytes f ++ rest), length-append (framed_bytes f) rest)

status_word :
    (pre : List ℕ) (f : Framed) (rest : List ℕ)
    → f.status < 2 ^ 32
    → get_le32 (pre ++ (framed_bytes f ++ rest)) (length pre) ≡ f.status
status_word pre f rest h =
    get_le32-append pre (framed_bytes f ++ rest)
    ∙ get-le_bytes f.status ((f.bytes ++ f.padding) ++ rest) h

-- At the start of a framed record, whatever stands before it and after it, the walk yields exactly
-- that record: its frame behind the status word, its length, its status, and the offset of what
-- follows it.
pub rx_next-framed :
    (pre : List ℕ) (f : Framed) (rest : List ℕ)
    → IsFramed f
    → length (pre ++ (framed_bytes f ++ rest)) < 2 ^ 62
    → let transfer = pre ++ (framed_bytes f ++ rest) in
      rx_next transfer (length transfer) (length pre)
      ≡ some (record {
        frame = length pre + 4;
        frame_len = length f.bytes;
        status = f.status;
        offset = length pre + length (framed_bytes f);
      })
unfolding rx_next
rx_next-framed pre f rest h fits = ground (
  arith,
  length_field f.status,
  status_word pre f rest h.word,
  length-framed f,
  length-transfer pre f rest,
)
