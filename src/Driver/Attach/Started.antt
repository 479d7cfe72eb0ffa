-- ===== src/Driver/Attach/Started.antt =====
-- What holds of a driver that has started.
use smsc95xx_macos.Base.{◌≡◌, ◌∙◌, refl, ap, true, not, some, [], ◌∷◌, if-cases, arith}
use smsc95xx_macos.Driver.Status.{KernReturn, is_success}
use smsc95xx_macos.Driver.Queries.{get_hardware_address}
use smsc95xx_macos.Driver.Attach.{Site, Attach, in_turn, with_handles}
use smsc95xx_macos.Driver.Attach.Start.{
  StartEnd, Ends, start_steps, register_interface, start_on_interface, start, new_attach,
}
use smsc95xx_macos.Driver.Attach.Provenance.{Known, Programmed}
use smsc95xx_macos.Driver.Attach.Apart.{steps-Known, steps-Programmed}
use smsc95xx_macos.Driver.Attach.Cleanup.{new-Early, quiesce-balance, steps-Early}

-- The address is known and the chip programmed with it, the interface was registered once, with that
-- address, and the stack is given it.
pub record Started (site : Site) (a : Attach) : Type 0 where
  pub known : Known site a.driver.life
  pub programmed : Programmed a.driver.life a.trace
  pub registered : a.registered ≡ a.driver.life.mac_address ∷ []
  pub answer :
      get_hardware_address true a.driver ≡ (KernReturn.success, some a.driver.life.mac_address)

module _ (site : Site) where
  -- Both ends at which the registration was reached.
  abbrev Outcome : StartEnd → Type 0
  Outcome =
      Ends (λ ret a. is_success ret ≡ true → Started site a) (λ ret a t. Known site a.driver.life)

  register-Started :
      (a : Attach)
      → Known site a.driver.life
      → Programmed a.driver.life a.trace
      → a.registered ≡ []
      → Outcome (register_interface site a)
  unfolding register_interface get_hardware_address
  register-Started a k p r =
      let ret = site.register_ethernet a.driver.life.mac_address in
      if-cases Outcome (not (is_success ret)) _ _
        (λ bad.
          let q = quiesce-balance site a.driver in
          record {
            valid = q.5 ∙ k.valid;
            plausible = rw q.4 k.plausible;
            six = rw q.4 k.six;
            from = k.from;
            source = rw q.4 k.source;
          })
        (λ ok h. record {
          known = k;
          programmed = p;
          registered = ap (λ l. a.driver.life.mac_address ∷ l) r;
          answer = ground (arith, k.valid);
        })

  -- If the attach of a new driver succeeds, then the chip said that the EEPROM was loaded, the EEPROM's
  -- signature was right, and the station address is the six bytes that it holds, not all zeros, all ones
  -- or multicast; the last twenty writes to the chip were the bring-up for that address, without
  -- promiscuous mode; the interface was registered once, with that address; and the driver answers
  -- with it. Where the registration was refused, the address is as trusted.
  pub start-Started : Outcome (start site new_attach)
  unfolding start start_on_interface
  start-Started =
      let a = with_handles (λ h. record h { interface = true }) new_attach in
      let o = in_turn (start_steps site) a in
      if-cases Outcome (not (is_success site.super_start)) _ _
        (λ bad h. absurd (ground (arith, bad, h)))
        (λ _.
          if-cases Outcome (not site.is_interface) _ _ (λ _ h. absurd (unfold is_success in cc h))
            (λ _.
              if-cases Outcome (not (is_success o.0)) _ _ (λ bad h. absurd (ground (arith, bad, h)))
                (λ ok.
                  let good : is_success o.0 ≡ true = ground (arith, ok) in
                  register-Started o.1 (steps-Known site a good) (steps-Programmed site a good)
                    (steps-Early site a (refl, refl) new-Early).unregistered)))
