-- ===== src/Probe/Commands/Station.antt =====
-- The station address that resolve_mac gives to init, tx and rx.
use mathlib.Core.Option
use smsc95xx_macos.Base.{
  ℕ, ◌<◌, ◌≡◌, ◌∙◌, refl, sym, ap, subst, some-inj, map-inv, true, not, Option, none, some, List,
  [], ◌∷◌, if-cases, ◌==◌, ltb, u8, length, get_or, map, All, arith,
}
use smsc95xx_macos.Proto.Words.{eeprom_sig_valid}
use smsc95xx_macos.Proto.Mac.{MacCheck, mac_plausible}
use smsc95xx_macos.Driver.Status.{is_success}
use smsc95xx_macos.Init.{Trace}
use smsc95xx_macos.Probe.{eeprom_loaded, read_mac_verified, probe_eeprom_read}
use smsc95xx_macos.Probe.Address.{read_mac_verified-Verified}
use smsc95xx_macos.Probe.Commands.{World, octets_of, plausible_only, parse_mac, resolve_mac}

none-some : {mac : List ℕ} → none ≡ some mac → ⊥
none-some h = cc h

octets_of-same :
    (vs : List ℕ) {mac : List ℕ}
    → octets_of vs ≡ some mac
    → (mac ≡ vs) × All (λ (v : ℕ). v < 256) vs
unfolding octets_of
octets_of-same [] h = (sym (some-inj h), tt)
octets_of-same (v ∷ vs) {mac} h =
    if-cases
      (λ (o : Option (List ℕ)). o ≡ some mac → (mac ≡ v ∷ vs) × All (λ (x : ℕ). x < 256) (v ∷ vs))
      (ltb 0xFF v) none (Option.map (◌∷◌ (u8 v)) (octets_of vs)) (λ _ e. absurd (none-some e))
      (λ small e.
        let (rest, er, em) = map-inv (◌∷◌ (u8 v)) (octets_of vs) e in
        let (same, below) = octets_of-same vs er in
        let octet : u8 v ≡ v = ground (arith, small) in
        (sym em ∙ ap (◌∷◌ (u8 v)) same ∙ ap (λ x. x ∷ vs) octet, (ground (arith, small), below)))
      h

plausible_only-some :
    (k : MacCheck) (bytes : List ℕ) {mac : List ℕ}
    → plausible_only k bytes ≡ some mac
    → (k ≡ MacCheck.plausible) × (mac ≡ bytes)
plausible_only-some MacCheck.plausible bytes h = (refl, sym (some-inj h))
plausible_only-some _ bytes h = absurd (none-some h)

-- The six numbers of an address as it is given.
abbrev pub six_numbers : List ℕ → List ℕ
six_numbers v = map (λ i. get_or v i 0) (0 ∷ 1 ∷ 2 ∷ 3 ∷ 4 ∷ 5 ∷ [])

-- Where an address comes from: the option, whose six numbers are octets, or else the EEPROM, whose
-- signature was right and whose six bytes pass the pattern checks.
abbrev pub Trusted : World → Option (List ℕ) → Trace → List ℕ → Type 0
Trusted w (some s) t mac =
    ((w.scan_mac s).0 ≡ 6) × (mac ≡ six_numbers (w.scan_mac s).1) × All (λ (v : ℕ). v < 256) mac
Trusted w none t mac =
    let t1 = (eeprom_loaded w.pipe true true t).2 in
    (eeprom_sig_valid (get_or (probe_eeprom_read w.pipe true 0 1 t1).1 0 0) ≡ true)
    × (mac ≡ (read_mac_verified w.pipe true t1).1)
    × (length mac ≡ 6)
    × (mac_plausible mac ≡ MacCheck.plausible)

pub resolve_mac-Trusted :
    (w : World) (o : Option (List ℕ)) (t : Trace) (mac : List ℕ)
    → (resolve_mac w o t).0 ≡ some mac
    → Trusted w o t mac
unfolding resolve_mac parse_mac
resolve_mac-Trusted w (some s) t mac h =
    let v = six_numbers (w.scan_mac s).1 in
    if-cases (λ (o : Option (List ℕ)). o ≡ some mac → Trusted w (some s) t mac)
      (not ((w.scan_mac s).0 == 6)) none (octets_of v) (λ _ e. absurd (none-some e))
      (λ six e.
        let (same, below) = octets_of-same v e in
        (ground (arith, six), same, subst (All (λ (x : ℕ). x < 256)) (sym same) below))
      h
resolve_mac-Trusted w none t mac h =
    let t1 = (eeprom_loaded w.pipe true true t).2 in
    let o = read_mac_verified w.pipe true t1 in
    if-cases (λ (r : Option (List ℕ) × Trace). r.0 ≡ some mac → Trusted w none t mac)
      (not (is_success o.0)) (none, o.2) (plausible_only (mac_plausible o.1) o.1, o.2)
      (λ _ e. absurd (none-some e))
      (λ ok e.
        let (right, six, _) = (read_mac_verified-Verified w.pipe true t1).0 (ground (arith, ok)) in
        let (good, same) = plausible_only-some (mac_plausible o.1) o.1 e in
        (right, same, ap length same ∙ six, ap mac_plausible same ∙ good))
      h
