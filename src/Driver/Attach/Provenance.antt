-- ===== src/Driver/Attach/Provenance.antt =====
-- A started driver has a station address that its EEPROM vouched for, and the chip was brought up with it.
use smsc95xx_macos.Base.{
  ℕ, ◌≡◌, ◌∙◌, refl, sym, subst, Bool, true, false, not, ◌&&◌, some, List, ◌∷◌, ◌++◌, ◌==◌,
  if-cases, length, bit_and, get_or, arith,
}
use smsc95xx_macos.Regs.{reg_e2p_cmd, e2p_loaded, eeprom_sig_offset, eeprom_mac_offset, mac_len}
use smsc95xx_macos.Proto.Words.{eeprom_sig_valid}
use smsc95xx_macos.Proto.Mac.{MacCheck, mac_plausible}
use smsc95xx_macos.Driver.Status.{KernReturn, is_success}
use smsc95xx_macos.Driver.State.{Lifecycle}
use smsc95xx_macos.Init.{reg_read, Trace, Callbacks, eeprom_read, init_seq}
use smsc95xx_macos.Init.Eeprom.{eeprom_read-bounded}
use smsc95xx_macos.Init.Sequence.{writes, bring_up_trace, init_seq-adds}
use smsc95xx_macos.Driver.Control.{control_io}
use smsc95xx_macos.Driver.Control.Registers.{control_io-there, shared_result-success}
use smsc95xx_macos.Driver.Attach.{Site, Attach}
use smsc95xx_macos.Driver.Attach.Chip.{
  both, register_io, read_eeprom, accept_mac, read_mac, check_signature, find_mac, init_chip,
}

-- From the accesses `t` on: the EEPROM says that it was loaded, its signature is right, and the six bytes
-- that it holds for the address are `mac`.
abbrev pub FromEeprom : Callbacks → Trace → List ℕ → Type 0
FromEeprom io t mac =
    let (ret, cmd) = io.read t reg_e2p_cmd in
    let (rs, sig, t1) =
      eeprom_read (some (both io)) true eeprom_sig_offset 1 (reg_read reg_e2p_cmd ret cmd ∷ t) in
    let (rm, bytes, t2) = eeprom_read (some (both io)) true eeprom_mac_offset mac_len t1 in
    (is_success ret ≡ true)
    × ((bit_and cmd e2p_loaded == 0) ≡ false)
    × (is_success rs ≡ true)
    × (eeprom_sig_valid (get_or sig 0 0) ≡ true)
    × (is_success rm ≡ true)
    × (bytes ≡ mac)

-- The address is valid, it is plausible, it has six bytes, and the EEPROM holds it.
pub record Known (site : Site) (life : Lifecycle) : Type 0 where
  pub valid : life.mac_valid ≡ true
  pub plausible : mac_plausible life.mac_address ≡ MacCheck.plausible
  pub six : length life.mac_address ≡ 6
  pub from : Trace
  pub source : FromEeprom (control_io site.pipe true) from life.mac_address

-- The last writes to the chip were the bring-up for the address.
abbrev pub Programmed : Lifecycle → Trace → Type 0
Programmed life t =
    (before : List (ℕ × ℕ)) × (v : ℕ) × (writes t
      ≡ before ++ bring_up_trace life.mac_address false v)

not-false : {b : Bool} → not b ≡ false → b ≡ true
not-false h = ground (arith, h)

never : {A : Type 0} → is_success KernReturn.not_found ≡ true → A
unfolding is_success
never h = absurd (cc h)

module _ (site : Site) where
  accepted :
      (c : MacCheck) (mac : List ℕ) (a : Attach)
      → is_success (accept_mac site c mac a).0 ≡ true
      → (c ≡ MacCheck.plausible)
        × ((accept_mac site c mac a).1.driver.life.mac_valid ≡ true)
        × ((accept_mac site c mac a).1.driver.life.mac_address ≡ mac)
  unfolding accept_mac is_success
  accepted MacCheck.plausible mac a h = (refl, refl, refl)
  accepted _ mac a h = cc h

  pub find_mac-Known :
      (a : Attach)
      → is_success (find_mac site a).0 ≡ true
      → Known site (find_mac site a).1.driver.life
  unfolding find_mac check_signature read_mac read_eeprom
  find_mac-Known a =
      let io = register_io site a in
      let there : Bool = a.driver.handles.interface && a.driver.handles.ctrl_buffer in
      let (ret, cmd) = io.read a.trace reg_e2p_cmd in
      let a1 = record a { trace = reg_read reg_e2p_cmd ret cmd ∷ a.trace } in
      let (rs, sig, a2) = read_eeprom site eeprom_sig_offset 1 a1 in
      let (rm, mac, a3) = read_eeprom site eeprom_mac_offset mac_len a2 in
      let o1 = eeprom_read (some (both io)) true eeprom_sig_offset 1 a1.trace in
      let o2 = eeprom_read (some (both io)) true eeprom_mac_offset mac_len a2.trace in
      let P = λ (o : KernReturn × Attach). is_success o.0 ≡ true → Known site o.1.driver.life in
      if-cases P (not (is_success ret)) _ _ (λ bad h. absurd (ground (arith, bad, h)))
        (λ ok.
          if-cases P (bit_and cmd e2p_loaded == 0) _ _ (λ _ h. never h)
            (λ loaded.
              if-cases P (not (is_success rs)) _ _ (λ bad h. absurd (ground (arith, bad, h)))
                (λ ok1.
                  if-cases P (not (eeprom_sig_valid (get_or sig 0 0))) _ _ (λ _ h. never h)
                    (λ signed.
                      if-cases P (not (is_success rm)) _ _
                        (λ bad h. absurd (ground (arith, bad, h)))
                        (λ ok2 h.
                          let (c, v, m) = accepted (mac_plausible mac) mac a3 h in
                          let good0 : is_success ret ≡ true = not-false {b = is_success ret} ok in
                          let good2 : is_success o2.0 ≡ true =
                            sym (shared_result-success o2.0) ∙ not-false ok2 in
                          let bound = eeprom_read-bounded (some (both io)) true 1 6 a2.trace in
                          let source : FromEeprom io a.trace mac = (
                            not-false ok,
                            loaded,
                            sym (shared_result-success o1.0) ∙ not-false ok1,
                            not-false signed,
                            good2,
                            refl,
                          ) in
                          record {
                            valid = v;
                            plausible = rw m c;
                            six = rw m (bound.1 good2);
                            from = a.trace;
                            source =
                                subst
                                  (λ b.
                                    FromEeprom (control_io site.pipe b) a.trace
                                      (accept_mac site (mac_plausible mac) mac
                                        a3).1.driver.life.mac_address)
                                  (control_io-there site.pipe there a.trace reg_e2p_cmd good0)
                                  (rw m source);
                          })))))

  pub init_chip-Programmed :
      (a : Attach)
      → is_success (init_chip site a).0 ≡ true
      → Programmed (init_chip site a).1.driver.life (init_chip site a).1.trace
  unfolding init_chip
  init_chip-Programmed a h =
      let io = register_io site a in
      let o = init_seq (some (both io)) (some a.driver.life.mac_address) false a.trace in
      let w =
        init_seq-adds io a.driver.life.mac_address false a.trace
          (sym (shared_result-success o.0) ∙ h) in
      (writes a.trace, w.0, w.1)
