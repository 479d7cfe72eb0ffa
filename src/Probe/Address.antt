-- ===== src/Probe/Address.antt =====
-- The station address as the probe reads and writes it.
use smsc95xx_macos.Base.{
  ℕ, ◌≡◌, ◌∙◌, refl, sym, ap, Bool, true, false, not, List, [], ◌∷◌, ◌++◌, if-cases, length, get_or,
  append_assoc, arith,
}
use smsc95xx_macos.Regs.{reg_addrl, reg_addrh}
use smsc95xx_macos.Proto.Words.{eeprom_sig_valid}
use smsc95xx_macos.Proto.Mac.{mac_to_regs, regs_to_mac}
use smsc95xx_macos.Proto.Mac.RoundTrip.{IsOctets, regs_to_mac-mac_to_regs}
use smsc95xx_macos.Driver.Status.{KernReturn, is_success}
use smsc95xx_macos.Init.{Trace, eeprom_read, write_reg}
use smsc95xx_macos.Init.Eeprom.{eeprom_read-bounded}
use smsc95xx_macos.Init.Sequence.{writes}
use smsc95xx_macos.Driver.Control.{ControlPipe}
use smsc95xx_macos.Driver.Control.Registers.{shared_result-success}
use smsc95xx_macos.Probe.{
  probe_callbacks, probe_io, probe_eeprom_read, read_mac, read_mac_verified, set_mac,
}
use smsc95xx_macos.Probe.Agreement.{shared_same}

not_read : is_success KernReturn.not_readable ≡ true → false ≡ true
unfolding is_success
not_read h = h

module _ (pipe : ControlPipe) (there : Bool) where
  -- What a verified read gives: on success six bytes, and before them a signature that was right; on a
  -- wrong signature no byte, and no access after the signature's.
  abbrev pub Verified : Trace → KernReturn × List ℕ × Trace → Type 0
  Verified t o =
      let s = probe_eeprom_read pipe there 0 1 t in
      (is_success o.0 ≡ true
        → (eeprom_sig_valid (get_or s.1 0 0) ≡ true)
          × (length o.1 ≡ 6)
          × (o ≡ read_mac pipe there s.2))
      × (is_success s.0 ≡ true
          → eeprom_sig_valid (get_or s.1 0 0) ≡ false
          → (o.0 ≡ KernReturn.not_readable) × (o.1 ≡ []) × (o.2 ≡ s.2))

  read_mac-six :
      (t : Trace)
      → is_success (read_mac pipe there t).0 ≡ true
      → length (read_mac pipe there t).1 ≡ 6
  unfolding read_mac probe_eeprom_read
  read_mac-six t h =
      let o = eeprom_read (probe_io (probe_callbacks pipe there)) true 1 6 t in
      (eeprom_read-bounded (probe_io (probe_callbacks pipe there)) true 1 6 t).1
        (sym (shared_result-success o.0) ∙ ap is_success (sym (shared_same o.0)) ∙ h)

  -- The probe hands out an address only if the EEPROM's signature was right, and then all six bytes of
  -- it; on a wrong signature it says so, hands out nothing, and asks the chip nothing further.
  pub read_mac_verified-Verified : (t : Trace) → Verified t (read_mac_verified pipe there t)
  unfolding read_mac_verified
  read_mac_verified-Verified t =
      let s = probe_eeprom_read pipe there 0 1 t in
      if-cases (Verified t) (not (is_success s.0)) _ _
        (λ bad. ((λ h. absurd (ground (arith, bad, h))), (λ h w. absurd (ground (arith, bad, h)))))
        (λ ok.
          if-cases (Verified t) (not (eeprom_sig_valid (get_or s.1 0 0))) _ _
            (λ wrong. ((λ h. absurd (cc (not_read h))), (λ h w. (refl, refl, refl))))
            (λ right. (
              (λ h. (ground (arith, right), read_mac-six s.2 h, refl)),
              (λ h w. absurd (ground (arith, right, w))),
            )))

  -- Setting the address of six octets, when both writes succeed, leaves in ADDRL and ADDRH the words
  -- that decode to it, and writes nothing else.
  pub set_mac-wrote :
      (a b c d e f : ℕ) (t : Trace)
      → IsOctets (a ∷ b ∷ c ∷ d ∷ e ∷ f ∷ [])
      → is_success (set_mac pipe there (a ∷ b ∷ c ∷ d ∷ e ∷ f ∷ []) t).0 ≡ true
      → (low : ℕ) × (high : ℕ) × (writes (set_mac pipe there (a ∷ b ∷ c ∷ d ∷ e ∷ f ∷ []) t).1
          ≡ writes t ++ (reg_addrl, low) ∷ (reg_addrh, high) ∷ [])
        × (regs_to_mac low high ≡ a ∷ b ∷ c ∷ d ∷ e ∷ f ∷ [])
  unfolding set_mac writes
  set_mac-wrote a b c d e f t octets h =
      let mac = a ∷ b ∷ c ∷ d ∷ e ∷ f ∷ [] in
      let (low, high) = mac_to_regs mac in
      let io = probe_callbacks pipe there in
      let first = write_reg io reg_addrl low t in
      let second = write_reg io reg_addrh high first.1 in
      let wrote : writes second.1 ≡ writes t ++ (reg_addrl, low) ∷ (reg_addrh, high) ∷ [] =
        append_assoc (writes t) ((reg_addrl, low) ∷ []) ((reg_addrh, high) ∷ []) in
      (
        low,
        high,
        if-cases
            (λ (o : KernReturn × Trace).
              is_success o.0 ≡ true
              → writes o.1 ≡ writes t ++ (reg_addrl, low) ∷ (reg_addrh, high) ∷ [])
            (is_success first.0) second first (λ _ _. wrote)
            (λ bad ok. absurd (ground (arith, bad, ok))) h,
        regs_to_mac-mac_to_regs a b c d e f octets,
      )
