-- ===== src/Proto/VidPid/RoundTrip.antt =====
-- What is parsed is a pair of 16-bit ids, and the usual way to print them is read back.
use smsc95xx_macos.Base.{
  ℕ, ◌+◌, ◌*◌, ◌/◌, ◌%◌, ◌^◌, ◌<◌, ◌≡◌, refl, ap, ◌∙◌, true, false, some, List, [], ◌∷◌, ◌++◌,
  if◌then◌else◌, ltb, ◌==◌, bit_or, u16, u32, arith,
}
use smsc95xx_macos.Base.Bits.{bit_or_disjoint}
use smsc95xx_macos.Proto.VidPid.{
  hex_digit, shift_in, hex_digits, has_prefix, parse_hex16, split_colon, both_ids, ids_of,
  parse_vid_pid,
}

-- The lower-case digit of a value below 16, and the four digits of a 16-bit value.
abbrev pub digit : ℕ → ℕ
digit d = if ltb d 10 then d + 0x30 else d + 0x57

abbrev pub hex4 : ℕ → List ℕ
hex4 v = digit (v / 2 ^ 12) ∷ digit (v / 2 ^ 8 % 16) ∷ digit (v / 2 ^ 4 % 16) ∷ digit (v % 16) ∷ []

hex_digit-digit : (d : ℕ) → d < 16 → hex_digit (digit d) ≡ some d
unfolding hex_digit
hex_digit-digit d h = ground arith

shift_in-digit : (v d : ℕ) → d < 16 → v * 16 + d < 65536 → shift_in v (some d) ≡ some (v * 16 + d)
unfolding shift_in
shift_in-digit v d h k =
    let e : bit_or (u32 (v * 16)) d ≡ v * 16 + d =
      ap (λ x. bit_or x d) (small (v * 16) (omega arith)) ∙ bit_or_disjoint 4 v d h in
    ground (arith, e)
  where
    small : (n : ℕ) → n < 65536 → u32 n ≡ n
    small n below = omega arith

-- One more digit.
hex_digits-digit :
    (v d : ℕ) (cs : List ℕ)
    → d < 16
    → v * 16 + d < 65536
    → hex_digits (digit d ∷ cs) (some v) ≡ hex_digits cs (some (v * 16 + d))
unfolding hex_digits
hex_digits-digit v d cs h k =
    ap (hex_digits cs) (ap (shift_in v) (hex_digit-digit d h) ∙ shift_in-digit v d h k)

hex_digits-hex4 : (v : ℕ) → v < 65536 → hex_digits (hex4 v) (some 0) ≡ some v
hex_digits-hex4 v h =
    hex_digits-digit 0 (v / 2 ^ 12) _ (omega arith) (omega arith)
    ∙ hex_digits-digit (0 * 16 + v / 2 ^ 12) (v / 2 ^ 8 % 16) _ (omega arith) (omega arith)
    ∙ hex_digits-digit ((0 * 16 + v / 2 ^ 12) * 16 + v / 2 ^ 8 % 16) (v / 2 ^ 4 % 16) _
        (omega arith) (omega arith)
    ∙ hex_digits-digit (((0 * 16 + v / 2 ^ 12) * 16 + v / 2 ^ 8 % 16) * 16 + v / 2 ^ 4 % 16)
        (v % 16) [] (omega arith) (omega arith)
    ∙ unfold hex_digits in ap (λ n. some n) (omega arith)

-- No digit is a colon or an x.
digit-plain :
    (d : ℕ)
    → d < 16
    → ((digit d == 0x3A) ≡ false) × ((digit d == 0x78) ≡ false) × ((digit d == 0x58) ≡ false)
digit-plain d h = ground arith

hex4-no_prefix : (v : ℕ) → v < 65536 → has_prefix (hex4 v) ≡ false
unfolding has_prefix
hex4-no_prefix v h = let n = digit-plain (v / 2 ^ 8 % 16) (omega arith) in ground (arith, n.1, n.2)

parse_hex16-hex4 : (v : ℕ) → v < 65536 → parse_hex16 (hex4 v) ≡ some v
unfolding parse_hex16
parse_hex16-hex4 v h = rw (hex4-no_prefix v h) (hex_digits-hex4 v h)

parse_hex16-prefixed : (v : ℕ) → v < 65536 → parse_hex16 (0x30 ∷ 0x78 ∷ hex4 v) ≡ some v
unfolding parse_hex16 has_prefix
parse_hex16-prefixed v h = hex_digits-hex4 v h

split_colon-cons :
    (c : ℕ) (cs : List ℕ) (xs ys : List ℕ)
    → (c == 0x3A) ≡ false
    → split_colon cs ≡ some (xs, ys)
    → split_colon (c ∷ cs) ≡ some (c ∷ xs, ys)
unfolding split_colon
split_colon-cons c cs xs ys n e = rw (n, e) refl

split_colon-colon : (ys : List ℕ) → split_colon (0x3A ∷ ys) ≡ some ([], ys)
unfolding split_colon
split_colon-colon ys = refl

split_colon-hex4 :
    (v : ℕ) (ys : List ℕ) → v < 65536 → split_colon (hex4 v ++ 0x3A ∷ ys) ≡ some (hex4 v, ys)
split_colon-hex4 v ys h = split_colon-cons _ _ _ ys (digit-plain (v / 2 ^ 12) (omega arith)).0 (
    split_colon-cons _ _ _ ys (digit-plain (v / 2 ^ 8 % 16) (omega arith)).0 (
      split_colon-cons _ _ _ ys (digit-plain (v / 2 ^ 4 % 16) (omega arith)).0
        (split_colon-cons _ _ [] ys (digit-plain (v % 16) (omega arith)).0 (split_colon-colon ys))))

both_ids-same : (v p : ℕ) → v < 65536 → p < 65536 → both_ids (some v) (some p) ≡ some (v, p)
unfolding both_ids
both_ids-same v p h k = rw (fits v h, fits p k) refl
  where
    fits : (n : ℕ) → n < 65536 → u16 n ≡ n
    fits n below = omega arith

-- Two 16-bit ids printed as `%04x:%04x`, with or without `0x` before the first, are parsed as themselves.
pub parse_vid_pid-hex4 :
    (v p : ℕ)
    → v < 65536
    → p < 65536
    → (parse_vid_pid (some (hex4 v ++ 0x3A ∷ hex4 p)) true ≡ some (v, p))
      × (parse_vid_pid (some (0x30 ∷ 0x78 ∷ hex4 v ++ 0x3A ∷ hex4 p)) true ≡ some (v, p))
unfolding parse_vid_pid ids_of
parse_vid_pid-hex4 v p h k = (
  rw (split_colon-hex4 v (hex4 p) h, parse_hex16-hex4 v h, parse_hex16-hex4 p k)
      (both_ids-same v p h k),
  rw (prefixed, parse_hex16-prefixed v h, parse_hex16-hex4 p k) (both_ids-same v p h k),
)
  where
    prefixed :
        split_colon (0x30 ∷ 0x78 ∷ hex4 v ++ 0x3A ∷ hex4 p) ≡ some (0x30 ∷ 0x78 ∷ hex4 v, hex4 p)
    prefixed =
        split_colon-cons 0x30 _ _ (hex4 p) refl
          (split_colon-cons 0x78 _ _ (hex4 p) refl (split_colon-hex4 v (hex4 p) h))
