-- ===== src/Probe/Commands/Initialising.antt =====
-- When cmd_init reports success.
use mathlib.Core.Option
use smsc95xx_macos.Base.{
  ℕ, ◌≡◌, ◌∙◌, ◌⊎◌, inl, inr, refl, sym, ap, subst, Bool, true, false, not, Option, none, some,
  List, if-cases, arith,
}
use smsc95xx_macos.Regs.{reg_mac_cr, phy_addr, mii_bmsr}
use smsc95xx_macos.Proto.Words.{bmsr_autoneg_capable}
use smsc95xx_macos.Driver.Status.{is_success}
use smsc95xx_macos.Init.{Trace}
use smsc95xx_macos.Probe
use smsc95xx_macos.Probe.{read_reg, mii_read}
use smsc95xx_macos.Probe.Commands.{
  World, Link, resolve_mac, resolved, with_mac, read_back, init_with, cmd_init,
}
use smsc95xx_macos.Probe.Commands.Claiming.{IsFair, IsSound, BroughtUp, bring_up-BroughtUp}

-- The PHY answers that it does not negotiate, and the chip takes the bring-up with the address and
-- gives MAC_CR back.
abbrev pub Ready : World → Trace → List ℕ → Type 0
Ready w t mac =
    let p = mii_read w.pipe true phy_addr mii_bmsr t in
    let i = Probe.init w.pipe true mac true p.2 in
    (is_success p.0 ≡ true)
    × (bmsr_autoneg_capable p.1 ≡ false)
    × (is_success i.0 ≡ true)
    × (is_success (read_reg w.pipe true i.1 reg_mac_cr).0 ≡ true)

abbrev pub Initialised : World → Option (List ℕ) → Link → ℕ × Link → Type 0
Initialised w o l (rc, l1) =
    IsSound l1
    × (l1.sent ≡ l.sent)
    × ((rc ≡ 1)
        ⊎ ((rc ≡ 0)
            × ((mac : List ℕ) × ((resolve_mac w o l.trace).0 ≡ some mac)
                × Ready w (resolve_mac w o l.trace).1 mac)))

Ends : World → Link → List ℕ → Trace → Option (ℕ × Link) → Type 0
Ends w l mac t x =
    (r : ℕ × Link) × (x ≡ some r)
    × IsSound r.1
    × (r.1.sent ≡ l.sent)
    × ((r.0 ≡ 1) ⊎ ((r.0 ≡ 0) × Ready w t mac))

-- Behind the bring-up.
read_back-Ends :
    (w : World) (l : Link) (mac : List ℕ) (t : Trace) (b : Bool × Link)
    → is_success (mii_read w.pipe true phy_addr mii_bmsr t).0 ≡ true
    → bmsr_autoneg_capable (mii_read w.pipe true phy_addr mii_bmsr t).1 ≡ false
    → BroughtUp w mac (record l { trace = (mii_read w.pipe true phy_addr mii_bmsr t).2 }) b
    → Ends w l mac t (some (read_back w b))
unfolding read_back Ends
read_back-Ends w l mac t (false, l1) read fixed (sound, sent, _, _) =
    (_, refl, sound, sent, inl refl)
read_back-Ends w l mac t (true, l1) read fixed (sound, sent, _, up) =
    let (_, went, same) = up refl in
    let moved = ap (λ (x : Trace). is_success (read_reg w.pipe true x reg_mac_cr).0) (sym same) in
    (
      _,
      refl,
      sound,
      sent,
      if-cases (λ (rc : ℕ). (rc ≡ 1) ⊎ ((rc ≡ 0) × Ready w t mac)) _ 1 0 (λ _. inl refl)
          (λ ok. inr (refl, (read, fixed, went, moved ∙ ground (arith, ok)))),
    )

with-Ends :
    (w : World) (l : Link) (mac : List ℕ)
    → IsFair w
    → IsSound l
    → Ends w l mac l.trace (init_with w l mac)
unfolding init_with Ends
with-Ends w l mac fair sound =
    let (kr, bmsr, t) = mii_read w.pipe true phy_addr mii_bmsr l.trace in
    let l1 = record l { trace = t } in
    if-cases (Ends w l mac l.trace) (not (is_success kr)) _ _
      (λ _. ((1, l1), refl, sound, refl, inl refl))
      (λ read.
        if-cases (Ends w l mac l.trace) (bmsr_autoneg_capable bmsr) _ _
          (λ _. ((1, l1), refl, sound, refl, inl refl))
          (λ fixed.
            let (b, eb, up) = bring_up-BroughtUp w mac l1 fair sound in
            subst (λ (x : Option (Bool × Link)). Ends w l mac l.trace (Option.map (read_back w) x))
              (sym eb) (read_back-Ends w l mac l.trace b (ground (arith, read)) fixed up)))

-- If no interface has 255 pipes, cmd_init returns and sends no frame; and it reports 0 only if it has an
-- address, the PHY answered and does not negotiate, the chip took every write of the bring-up with this
-- address, and MAC_CR was read back.
pub cmd_init-Initialised :
    (w : World) (o : Option (List ℕ)) (l : Link)
    → IsFair w
    → IsSound l
    → (r : ℕ × Link) × (cmd_init w o l ≡ some r) × Initialised w o l r
unfolding cmd_init with_mac Ends
cmd_init-Initialised w o l fair sound = by_mac (resolve_mac w o l.trace).0 refl
  where
    by_mac :
        (m : Option (List ℕ))
        → (resolve_mac w o l.trace).0 ≡ m
        → (r : ℕ × Link) × (with_mac w m (resolved w o l) (init_with w (resolved w o l)) ≡ some r)
          × Initialised w o l r
    by_mac none e = ((1, resolved w o l), refl, (sound, refl, inl refl))
    by_mac (some mac) e =
        (let (r, er, sound1, sent, how) = with-Ends w (resolved w o l) mac fair sound in
          (
            r,
            er,
            (
              sound1,
              sent,
              elim how [ inl one ↦ inl one | inr (zero1, ready) ↦ inr (zero1, (mac, e, ready)) ],
            ),
          ))
