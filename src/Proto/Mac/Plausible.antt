-- ===== src/Proto/Mac/Plausible.antt =====
-- What the pattern checks accept.
use smsc95xx_macos.Base.{
  ℕ, ◌%◌, ◌≡◌, ◌↔◌, List, [], ◌∷◌, All, get_or, ◌==◌, if◌then◌else◌, Bool, true, false, arith,
}
use smsc95xx_macos.Base.Bits.{bit_and_one_bit}
use smsc95xx_macos.Proto.Mac.{mac_plausible, scan_octets, plausible}

abbrev pub AllEq : ℕ → List ℕ → Type 0
AllEq v = All (λ o. o ≡ v)

scan_zeros :
    (os : List ℕ) (zeros ones : Bool)
    → ((scan_octets os zeros ones).0 ≡ true) ↔ ((zeros ≡ true) × AllEq 0 os)
unfolding scan_octets
scan_zeros [] zeros ones = ((λ e. (e, tt)), (λ h. h.0))
scan_zeros (o ∷ os) zeros ones =
    ground (
      arith,
      scan_zeros os (if o == 0x00 then zeros else false) (if o == 0xFF then ones else false),
    )

scan_ones :
    (os : List ℕ) (zeros ones : Bool)
    → ((scan_octets os zeros ones).1 ≡ true) ↔ ((ones ≡ true) × AllEq 0xFF os)
unfolding scan_octets
scan_ones [] zeros ones = ((λ e. (e, tt)), (λ h. h.0))
scan_ones (o ∷ os) zeros ones =
    ground
      (arith, scan_ones os (if o == 0x00 then zeros else false) (if o == 0xFF then ones else false))

-- An address passes the pattern checks exactly when it is not all zeros, not all ones, and its first
-- octet is even: its group bit is clear.
pub mac_plausible_iff :
    (mac : List ℕ)
    → (mac_plausible mac ≡ plausible)
      ↔ ((¬ AllEq 0 mac) × (¬ AllEq 0xFF mac) × (get_or mac 0 0 % 2 ≡ 0))
unfolding mac_plausible
mac_plausible_iff mac =
    ground
      (arith, scan_zeros mac true true, scan_ones mac true true, bit_and_one_bit 0 (get_or mac 0 0))
