-- ===== src/Proto/VidPid.antt =====
-- common/smsc95xx_proto.c: parsing a vendor and a product id from the text `vid:pid`, in hexadecimal. A
-- text is the codes of its characters, without the NUL at its end.
use mathlib.Core.Option
use smsc95xx_macos.Base.{
  ℕ, zero, suc, ◌+◌, ◌-◌, ◌*◌, ◌^◌, Bool, true, false, ◌&&◌, ◌||◌, not, Option, none, some, List,
  [], ◌∷◌, length, drop, get_or, if◌then◌else◌, ltb, leb, ◌==◌, bit_or, u16, u32,
}
pub mod RoundTrip

-- The value of a digit.
pub hex_digit : ℕ → Option ℕ
hex_digit c =
    if leb 0x30 c && leb c 0x39
    then some (c - 0x30)
    else if leb 0x61 c && leb c 0x66
    then some (c - 0x61 + 10)
    else if leb 0x41 c && leb c 0x46
    then some (c - 0x41 + 10)
    else none

-- `v = (v << 4) | d`, refused past 16 bits.
pub shift_in : ℕ → Option ℕ → Option ℕ
shift_in v none = none
shift_in v (some d) = let w = bit_or (u32 (v * 2 ^ 4)) d in if ltb 0xFFFF w then none else some w

-- The loop over the digits, with the value so far.
pub hex_digits : List ℕ → Option ℕ → Option ℕ
hex_digits [] v = v
hex_digits (c ∷ cs) none = none
hex_digits (c ∷ cs) (some v) = hex_digits cs (shift_in v (hex_digit c))

-- `0x` or `0X`, before at least one more character.
pub has_prefix : List ℕ → Bool
has_prefix s =
    ltb 2 (length s) && get_or s 0 0 == 0x30 && (get_or s 1 0 == 0x78 || get_or s 1 0 == 0x58)

pub parse_hex16 : List ℕ → Option ℕ
parse_hex16 s =
    if length s == 0 then none else hex_digits (if has_prefix s then drop 2 s else s) (some 0)

-- The text before the first colon, and the text behind it.
pub split_colon : List ℕ → Option (List ℕ × List ℕ)
split_colon [] = none
split_colon (c ∷ cs) =
    let rest = split_colon cs in
    if c == 0x3A then some ([], cs) else Option.map (λ (p : List ℕ × List ℕ). (c ∷ p.0, p.1)) rest

pub both_ids : Option ℕ → Option ℕ → Option (ℕ × ℕ)
both_ids none p = none
both_ids (some v) none = none
both_ids (some v) (some p) = some (u16 v, u16 p)

pub ids_of : Option (List ℕ × List ℕ) → Option (ℕ × ℕ)
ids_of none = none
ids_of (some (v, p)) = both_ids (parse_hex16 v) (parse_hex16 p)

-- `smsc95xx_parse_vid_pid`. A null text is `none`; `outputs` tells that neither output is null.
pub parse_vid_pid : Option (List ℕ) → Bool → Option (ℕ × ℕ)
parse_vid_pid none outputs = none
parse_vid_pid (some s) outputs = if outputs then ids_of (split_colon s) else none
