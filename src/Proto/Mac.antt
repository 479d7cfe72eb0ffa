-- ===== src/Proto/Mac.antt =====
-- common/smsc95xx_proto.c: the station address, as six bytes, as the register pair ADDRL and ADDRH,
-- and the pattern checks on it. An array `mac[6]` is a list of six bytes.
use smsc95xx_macos.Base.{
  ℕ, zero, suc, ◌+◌, ◌*◌, ◌/◌, ◌^◌, Bool, true, false, List, [], ◌∷◌, bit_and, bit_or, not, ◌==◌,
  if◌then◌else◌, u8, u32, get_or,
}
pub mod RoundTrip
pub mod Plausible

unfoldable pub mac_to_regs : List ℕ → ℕ × ℕ
mac_to_regs mac =
    let octet = λ (i : ℕ). get_or mac i 0 in
    (
      bit_or (bit_or (bit_or (octet 0) (u32 (octet 1 * 2 ^ 8))) (u32 (octet 2 * 2 ^ 16)))
          (u32 (octet 3 * 2 ^ 24)),
      bit_or (octet 4) (u32 (octet 5 * 2 ^ 8)),
    )

pub regs_to_mac : ℕ → ℕ → List ℕ
regs_to_mac addrl addrh =
    u8 (bit_and addrl 0xFF)
    ∷ u8 (bit_and (addrl / 2 ^ 8) 0xFF)
    ∷ u8 (bit_and (addrl / 2 ^ 16) 0xFF)
    ∷ u8 (bit_and (addrl / 2 ^ 24) 0xFF)
    ∷ u8 (bit_and addrh 0xFF)
    ∷ u8 (bit_and (addrh / 2 ^ 8) 0xFF)
    ∷ []

pub data MacCheck : Type 0 where
  plausible all_zeros all_ones multicast : MacCheck

-- The loop over the six octets, with the flags `all_zeros` and `all_ones`.
unfoldable pub scan_octets : List ℕ → Bool → Bool → Bool × Bool
scan_octets [] zeros ones = (zeros, ones)
scan_octets (o ∷ os) zeros ones =
    scan_octets os (if o == 0x00 then zeros else false) (if o == 0xFF then ones else false)

unfoldable pub mac_plausible : List ℕ → MacCheck
unfolding scan_octets
mac_plausible mac =
    let (zeros, ones) = scan_octets mac true true in
    if zeros
    then all_zeros
    else if ones
    then all_ones
    else if not (bit_and (get_or mac 0 0) 0x01 == 0)
    then multicast
    else plausible
