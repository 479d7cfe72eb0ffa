-- ===== src/Probe/Main/Returning.antt =====
-- Each subcommand comes to an end.
use smsc95xx_macos.Base.{
  ℕ, ◌≡◌, ◌∙◌, ◌⊎◌, inl, inr, refl, sym, ap, subst, Bool, true, false, not, ◌||◌, Option, some,
  List, [], ◌∷◌, if◌then◌else◌, if-cases, ◌==◌, bit_or,
}
use smsc95xx_macos.Driver.Status.{is_success}
use smsc95xx_macos.Init.{Trace}
use smsc95xx_macos.Regs.{phy_addr}
use smsc95xx_macos.Proto.Mac.{scan_octets}
use smsc95xx_macos.Probe.{mii_read, eeprom_loaded, read_mac_verified}
use smsc95xx_macos.Probe.Args.{Subcommand, id, phy, eeprom, init, tx, rx, all}
use smsc95xx_macos.Probe.Commands.{World, Link, cmd_id, cmd_phy, cmd_eeprom, read_phy}
use smsc95xx_macos.Probe.Commands.Claiming.{IsFair, IsSound}
use smsc95xx_macos.Probe.Commands.Sending.{Sent, cmd_tx-Sent}
use smsc95xx_macos.Probe.Commands.Receiving.{Listened, cmd_rx-Listened}
use smsc95xx_macos.Probe.Commands.Waiting.{FitsBuffer}
use smsc95xx_macos.Probe.Commands.Initialising.{cmd_init-Initialised}
use smsc95xx_macos.Probe.Main.{run_all, run_subcommand}

-- The exit code of a subcommand.
abbrev pub IsCode : ℕ → Type 0
IsCode rc = (rc ≡ 0) ⊎ (rc ≡ 1)

-- A subcommand returns, with the device in order.
abbrev pub Returned : ℕ × Link → Type 0
Returned (rc, l) = IsCode rc × IsSound l

chosen : (b : Bool) → IsCode (if b then 0 else 1)
chosen true = inl refl
chosen false = inr refl

tx-Returned :
    (w : World) (o : Option (List ℕ)) (l : Link) (r : ℕ × Link) → Sent w o l r → Returned r
tx-Returned w o l (rc, l1) (sound, inl (one, _)) = (inr one, sound)
tx-Returned w o l (rc, l1) (sound, inr (mac, _, _, _, e)) = (subst IsCode (sym e) (chosen _), sound)

rx-Returned :
    (w : World) (o : Option (List ℕ)) (l : Link) (r : ℕ × Link) → Listened w o l r → Returned r
rx-Returned w o l (rc, l1) (inl (sound, _, one, _)) = (inr one, sound)
rx-Returned w o l (rc, l1) (inr (_, _, _, (sound, _, inl (one, _)))) = (inr one, sound)
rx-Returned w o l (rc, l1) (inr (_, _, _, (sound, _, inr (_, _, _, _, _, (_, inl (_, one)))))) =
    (inr one, sound)
rx-Returned w o l (rc, l1)
      (inr (_, _, _, (sound, _, inr (_, _, _, _, _, (_, inr (_, _, (_, m, _, e))))))) =
    (subst IsCode (sym e) (if-cases IsCode (m == 0) 1 0 (λ _. inr refl) (λ _. inl refl)), sound)

or-IsCode : (a b : ℕ) → IsCode a → IsCode b → IsCode (bit_or a b)
or-IsCode a b (inl e) (inl f) = inl (ap (λ x. bit_or x b) e ∙ ap (bit_or 0) f)
or-IsCode a b (inl e) (inr f) = inr (ap (λ x. bit_or x b) e ∙ ap (bit_or 0) f)
or-IsCode a b (inr e) (inl f) = inr (ap (λ x. bit_or x b) e ∙ ap (bit_or 1) f)
or-IsCode a b (inr e) (inr f) = inr (ap (λ x. bit_or x b) e ∙ ap (bit_or 1) f)

phy-IsCode : (w : World) (regs : List ℕ) (t : _) → IsCode (read_phy w regs t).0
unfolding read_phy
phy-IsCode w [] t = inl refl
phy-IsCode w (reg ∷ regs) t =
    let (kr, v, t1) = mii_read w.pipe true phy_addr reg t in
    if-cases (λ (o : ℕ × Trace). IsCode o.0) (not (is_success kr)) (1, t1) (read_phy w regs t1)
      (λ _. inr refl) (λ _. phy-IsCode w regs t1)

id-Returned : (w : World) (l : Link) → IsSound l → Returned (cmd_id w l)
unfolding cmd_id
id-Returned w l sound = if-cases Returned _ _ _ (λ _. (inr refl, sound)) (λ _. (inl refl, sound))

eeprom-Returned : (w : World) (l : Link) → IsSound l → Returned (cmd_eeprom w l)
unfolding cmd_eeprom
eeprom-Returned w l sound =
    let o = read_mac_verified w.pipe true (eeprom_loaded w.pipe true true l.trace).2 in
    let (zeros, ones) = scan_octets o.1 true true in
    let l1 = record l { trace = o.2 } in
    let rest = if zeros || ones then (1, l1) else (0, l1) in
    if-cases Returned (not (is_success o.0)) (1, l1) rest (λ _. (inr refl, sound))
      (λ _.
        if-cases Returned (zeros || ones) (1, l1) (0, l1) (λ _. (inr refl, sound))
          (λ _. (inl refl, sound)))

phy-Returned : (w : World) (l : Link) → IsSound l → Returned (cmd_phy w l)
unfolding cmd_phy
phy-Returned w l sound = (phy-IsCode w _ l.trace, sound)

all-Returned : (w : World) (l : Link) → IsSound l → Returned (run_all w l)
unfolding run_all
all-Returned w l sound =
    let r1 = id-Returned w l sound in
    let r2 = phy-Returned w (cmd_id w l).1 r1.1 in
    let r3 = eeprom-Returned w (cmd_phy w (cmd_id w l).1).1 r2.1 in
    (or-IsCode _ _ (or-IsCode _ _ r1.0 r2.0) r3.0, r3.1)

-- Each subcommand returns, with a code of 0 or 1 and the device in order.
pub subcommand-Returned :
    (c : Subcommand) (w : World) (o : Option (List ℕ)) (l : Link)
    → IsFair w
    → FitsBuffer w
    → IsSound l
    → (r : ℕ × Link) × (run_subcommand c w o l ≡ some r) × Returned r
unfolding run_subcommand
subcommand-Returned id w o l fair fits sound = (cmd_id w l, refl, id-Returned w l sound)
subcommand-Returned phy w o l fair fits sound = (cmd_phy w l, refl, phy-Returned w l sound)
subcommand-Returned eeprom w o l fair fits sound = (cmd_eeprom w l, refl, eeprom-Returned w l sound)
subcommand-Returned init w o l fair fits sound =
    let (r, e, (sound1, _, how)) = cmd_init-Initialised w o l fair sound in
    (r, e, (elim how [ inl one ↦ inr one | inr (none1, _) ↦ inl none1 ], sound1))
subcommand-Returned tx w o l fair fits sound =
    let (r, e, sent) = cmd_tx-Sent w o l fair sound in (r, e, tx-Returned w o l r sent)
subcommand-Returned rx w o l fair fits sound =
    let (r, e, listened) = cmd_rx-Listened w o l fair fits sound in
    (r, e, rx-Returned w o l r listened)
subcommand-Returned all w o l fair fits sound = (run_all w l, refl, all-Returned w l sound)
