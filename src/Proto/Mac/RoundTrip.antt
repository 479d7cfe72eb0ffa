-- ===== src/Proto/Mac/RoundTrip.antt =====
-- Packing the station address into the register pair loses nothing.
use smsc95xx_macos.Base.{ℕ, ◌+◌, ◌*◌, ◌/◌, ◌%◌, ◌^◌, ◌<◌, ◌≡◌, ◌∙◌, List, [], ◌∷◌, All, arith}
use smsc95xx_macos.Base.Bits.{bit_and_low}
use smsc95xx_macos.Proto.Mac.{mac_to_regs, regs_to_mac}
use smsc95xx_macos.Proto.Le32.{or_bytes, or_two_bytes}

abbrev pub IsOctets : List ℕ → Type 0
IsOctets = All (λ o. o < 256)

packed :
    (a b c d e f : ℕ)
    → IsOctets (a ∷ b ∷ c ∷ d ∷ e ∷ f ∷ [])
    → mac_to_regs (a ∷ b ∷ c ∷ d ∷ e ∷ f ∷ [])
      ≡ (a + b * 256 + c * 65536 + d * 16777216, e + f * 256)
unfolding mac_to_regs
packed a b c d e f (p, (q, (r, (s, (t, (u, _)))))) =
    λ i. (or_bytes a b c d p q r s i, or_two_bytes e f t u i)

unpacked :
    (low high : ℕ)
    → regs_to_mac low high
      ≡ low % 256
        ∷ low / 256 % 256
        ∷ low / 65536 % 256
        ∷ low / 16777216 % 256
        ∷ high % 256
        ∷ high / 256 % 256
        ∷ []
unfolding regs_to_mac
unpacked low high = ground (
  arith,
  bit_and_low 8 low,
  bit_and_low 8 (low / 2 ^ 8),
  bit_and_low 8 (low / 2 ^ 16),
  bit_and_low 8 (low / 2 ^ 24),
  bit_and_low 8 high,
  bit_and_low 8 (high / 2 ^ 8),
)

-- Unpacking the packed registers gives back each of the six octets.
pub regs_to_mac-mac_to_regs :
    (a b c d e f : ℕ)
    → IsOctets (a ∷ b ∷ c ∷ d ∷ e ∷ f ∷ [])
    → (let regs = mac_to_regs (a ∷ b ∷ c ∷ d ∷ e ∷ f ∷ []) in regs_to_mac regs.0 regs.1)
      ≡ a ∷ b ∷ c ∷ d ∷ e ∷ f ∷ []
regs_to_mac-mac_to_regs a b c d e f h =
    ground
      (arith, packed a b c d e f h, unpacked (a + b * 256 + c * 65536 + d * 16777216) (e + f * 256))

-- Packing the octets of any register pair gives back the pair: ADDRL has 32 bits and ADDRH 16.
pub mac_to_regs-regs_to_mac :
    (low high : ℕ) → low < 2 ^ 32 → high < 2 ^ 16 → mac_to_regs (regs_to_mac low high) ≡ (low, high)
mac_to_regs-regs_to_mac low high p q = rw (unpacked low high) (
    packed (low % 256) (low / 256 % 256) (low / 65536 % 256) (low / 16777216 % 256) (high % 256)
      (high / 256 % 256) (omega arith)
    ∙ ground arith)
