-- ===== src/Tests/Framing.antt =====
-- The framing and the station address at concrete inputs.
use smsc95xx_macos.Base.{
  ℕ, ◌%◌, ◌*◌, ◌≡◌, ◌↔◌, refl, some, List, [], ◌∷◌, ◌++◌, replicate, length, drop, get_or, arith,
}
use smsc95xx_macos.Proto.Tx.{tx_prepend}
use smsc95xx_macos.Proto.Tx.Header.{header, tx_prepend-header}
use smsc95xx_macos.Proto.Rx.{RxRecord, rx_next}
use smsc95xx_macos.Proto.Rx.Bounds.{IsInside, rx_next-IsInside}
use smsc95xx_macos.Proto.Rx.Framing.{Framed, IsFramed, framed_bytes, rx_next-framed}
use smsc95xx_macos.Proto.Mac.{mac_to_regs, regs_to_mac, mac_plausible, MacCheck}
use smsc95xx_macos.Proto.Mac.RoundTrip.{regs_to_mac-mac_to_regs}
use smsc95xx_macos.Proto.Mac.Plausible.{AllEq, mac_plausible_iff}

abbrev buffer : List ℕ
buffer = replicate 100 7

tx_prepend-header_example :
    (tx_prepend buffer (length buffer) 60 ≡ (8, header 60 ++ drop 8 buffer))
    × (length (tx_prepend buffer (length buffer) 60).1 ≡ length buffer)
tx_prepend-header_example = tx_prepend-header buffer 60 (omega arith) (omega arith) (omega arith)

abbrev framed : Framed
framed = record { status = 64 * 65536; bytes = replicate 64 0x5A; padding = [] }

framed-IsFramed : IsFramed framed
framed-IsFramed = record { word = omega arith; counted = refl; crc = omega arith; padded = refl }

abbrev found : RxRecord
found = record { frame = 8; frame_len = 64; status = 64 * 65536; offset = 72 }

abbrev stream : List ℕ
stream = (1 ∷ 2 ∷ 3 ∷ 4 ∷ []) ++ (framed_bytes framed ++ (9 ∷ []))

rx_next-framed_example : rx_next stream 73 4 ≡ some found
rx_next-framed_example =
    rx_next-framed (1 ∷ 2 ∷ 3 ∷ 4 ∷ []) framed (9 ∷ []) framed-IsFramed (omega arith)

rx_next-found : rx_next stream 73 4 ≡ some found
rx_next-found = rx_next-framed (1 ∷ 2 ∷ 3 ∷ 4 ∷ []) framed (9 ∷ []) framed-IsFramed (omega arith)

rx_next-IsInside_example : IsInside 73 4 found
rx_next-IsInside_example =
    rx_next-IsInside stream 73 4 (omega arith) (omega arith) refl rx_next-found

regs_to_mac-mac_to_regs_example :
    (let regs = mac_to_regs (2 ∷ 0 ∷ 9 ∷ 255 ∷ 16 ∷ 1 ∷ []) in regs_to_mac regs.0 regs.1)
    ≡ 2 ∷ 0 ∷ 9 ∷ 255 ∷ 16 ∷ 1 ∷ []
regs_to_mac-mac_to_regs_example = regs_to_mac-mac_to_regs 2 0 9 255 16 1 (omega arith)

mac_plausible_iff_example : (mac_plausible (2 ∷ 0 ∷ 0 ∷ 0 ∷ 0 ∷ 1 ∷ []) ≡ MacCheck.plausible) ↔ (
    (¬ AllEq 0 (2 ∷ 0 ∷ 0 ∷ 0 ∷ 0 ∷ 1 ∷ []))
    × (¬ AllEq 0xFF (2 ∷ 0 ∷ 0 ∷ 0 ∷ 0 ∷ 1 ∷ []))
    × (get_or (2 ∷ 0 ∷ 0 ∷ 0 ∷ 0 ∷ 1 ∷ []) 0 0 % 2 ≡ 0))
mac_plausible_iff_example = mac_plausible_iff (2 ∷ 0 ∷ 0 ∷ 0 ∷ 0 ∷ 1 ∷ [])
