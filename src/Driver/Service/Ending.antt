-- ===== src/Driver/Service/Ending.antt =====
-- The end of every service.
use smsc95xx_macos.Base.{
  ◌≡◌, ◌∙◌, refl, sym, subst, true, not, none, some, Option, if-cases, arith, ap,
}
use smsc95xx_macos.Driver.Status.{is_success}
use smsc95xx_macos.Driver.State.{Driver, Handles}
use smsc95xx_macos.Driver.Tx.Ledger.{transmit_calls}
use smsc95xx_macos.Driver.Run.Keeping.{Aside-TxInv}
use smsc95xx_macos.Driver.Interface.Quiescing.{quiesce_datapath-TxInv, quiesce_datapath-shuts}
use smsc95xx_macos.Driver.Teardown.{Teardown, begun}
use smsc95xx_macos.Driver.Life.{release_when_due}
use smsc95xx_macos.Driver.Life.Settling.{
  Holds, Ended, release_when_due-Holds, Life-Holds, Holds-Ended,
}
use smsc95xx_macos.Driver.Attach.{Site, Attach, in_turn, with_handles}
use smsc95xx_macos.Driver.Attach.Kept.{Early, Early-TxInv}
use smsc95xx_macos.Driver.Attach.Cleanup.{new-Early, steps-Early}
use smsc95xx_macos.Driver.Attach.Start.{
  StartEnd, Ends, start_steps, register_interface, start_on_interface, start, new_attach,
}
use smsc95xx_macos.Driver.Service.{Service, serving, refused}

module _ (site : Site) where
  -- What a life begins with, after a success and after a refused registration.
  abbrev Ready : StartEnd → Type 0
  Ready =
      Ends (λ ret a. is_success ret ≡ true → Holds none a.driver)
        (λ ret a x. Holds (some x) (release_when_due site.kit 0 x a.driver))

  register-Ready : (a : Attach) → Early a → Ready (register_interface site a)
  unfolding register_interface transmit_calls
  register-Ready a e =
      let v = Early-TxInv a e in
      let q = quiesce_datapath-shuts site.kit a.driver in
      if-cases Ready (not (is_success (site.register_ethernet a.driver.life.mac_address))) _ _
        (λ bad.
          release_when_due-Holds site.kit 0 _ _ _ (begun _)
            (quiesce_datapath-TxInv site.kit a.driver v)
            (λ h. ap (λ (k : Handles). k.interface) q.3 ∙ e.opened (sym q.2 ∙ h)) (q.1, q.0)
            (λ x y. absurd (omega (arith, x, y))))
        (λ ok _. record {
          books = Aside-TxInv a.driver _ (refl, refl, refl, refl) v;
          there = e.opened;
          phase = refl;
        })

  start-Ready : Ready (start site new_attach)
  unfolding start start_on_interface
  start-Ready =
      let a = with_handles (λ h. record h { interface = true }) new_attach in
      let o = in_turn (start_steps site) a in
      if-cases Ready (not (is_success site.super_start)) _ _
        (λ bad h. absurd (ground (arith, bad, h)))
        (λ _.
          if-cases Ready (not site.is_interface) _ _ (λ _ h. absurd (unfold is_success in cc h))
            (λ _.
              if-cases Ready (not (is_success o.0)) _ _ (λ bad h. absurd (ground (arith, bad, h)))
                (λ _. register-Ready o.1 (steps-Early site a (refl, refl) new-Early))))

  Service-Holds : (o : Option Teardown) (s : Driver) → Service site o s → Holds o s
  Service-Holds _ _ (serving ret a o s e ok l) =
      Life-Holds site.kit none a.driver (subst Ready e start-Ready ok) o s l
  Service-Holds _ _ (refused ret a x o s e l) =
      Life-Holds site.kit (some x) (release_when_due site.kit 0 x a.driver)
        (subst Ready e start-Ready) o s l

  -- Of a service, Start of a new driver succeeded, or its registration was refused, so that it began
  -- the teardown itself. Then callbacks, completions with any status, and Stop came in any order, the
  -- Cancels of finishStop were accepted or refused, and their handlers ran at any time. Once the teardown
  -- has begun, and no Cancel is still to be issued and no accepted one waits for its handler, the
  -- resources were released once and the base class stopped once; no pointer is left, the interface is
  -- closed, each packet that was ever taken to send is back as often as it was taken, by the counters
  -- too (packets dequeued are packets returned and lost), and none is in flight; a doorbell, a
  -- completion, or the timer that comes then makes no call, and the interface cannot be enabled.
  pub Service-Ended :
      (x : Teardown) (s : Driver)
      → Service site (some x) s
      → x.to_cancel ≡ 0
      → x.waiting ≡ 0
      → (x.stops ≡ 1) × (x.releases ≡ 1) × Ended site.kit s
  Service-Ended x s v = Holds-Ended site.kit x s (Service-Holds (some x) s v)
