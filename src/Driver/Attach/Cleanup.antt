-- ===== src/Driver/Attach/Cleanup.antt =====
-- A failed attach leaves nothing behind.
use smsc95xx_macos.Base.{
  ℕ, ◌+◌, ◌≡◌, ◌∙◌, refl, sym, ap, true, false, not, none, List, [], ◌∷◌, if-cases, if◌then◌else◌,
  arith,
}
use smsc95xx_macos.Driver.Status.{KernReturn, is_success}
use smsc95xx_macos.Driver.State.{Driver}
use smsc95xx_macos.Driver.Tx.Ledger.{transmit_calls}
use smsc95xx_macos.Driver.Interface.{quiesce_datapath}
use smsc95xx_macos.Driver.Interface.Latch.{quiesce-IsQuiet}
use smsc95xx_macos.Driver.Interface.Quiescing.{quiesce_datapath-shuts}
use smsc95xx_macos.Driver.Release.{release_resources, start_failed}
use smsc95xx_macos.Driver.Release.Packet.{release_resources-idle}
use smsc95xx_macos.Driver.Release.Final.{no_handles, release_resources-Released}
use smsc95xx_macos.Driver.Teardown.{Teardown, begin_stop}
use smsc95xx_macos.Driver.Attach.{Site, Attach, in_turn, with_handles}
use smsc95xx_macos.Driver.Attach.Objects.{open_provider}
use smsc95xx_macos.Driver.Attach.Start.{
  StartEnd, Ends, opened_steps, start_steps, register_interface, start_on_interface, start,
  new_attach,
}
use smsc95xx_macos.Driver.Attach.Kept.{in_turn_inv, opens, closes, Early, Early-TxInv}
use smsc95xx_macos.Driver.Attach.Early.{open_provider-Early, opened_steps-Early}

-- Every pointer is null, the interface was closed as often as it was opened, and no interface was
-- registered.
pub record Clean (a : Attach) : Type 0 where
  pub handles : a.driver.handles ≡ no_handles
  pub balance : opens a.driver.history ≡ closes a.driver.history
  pub unregistered : a.registered ≡ []

-- The registration was refused: it was tried once, the driver is stopping, the receive loop does not run
-- and the gate of the transmit path is closed, and the teardown counts what is there to cancel.
pub record Refused (a : Attach) (t : Teardown) : Type 0 where
  pub tried : a.registered ≡ a.driver.life.mac_address ∷ []
  pub shut :
      (a.driver.life.stopping ≡ true)
      × (a.driver.rx.rx_running ≡ false)
      × (a.driver.tx.tx_datapath_ready ≡ false)
  pub teardown : t ≡ begin_stop a.driver.handles

pub new-Early : Early (with_handles (λ h. record h { interface = true }) new_attach)
unfolding transmit_calls opens closes
new-Early = record {
  unsent = refl;
  packet = refl;
  idle = refl;
  counts = (refl, refl, refl);
  opened = λ h. refl;
  balance = refl;
  unregistered = refl;
}

module _ (site : Site) where
  abbrev Outcome : StartEnd → Type 0
  Outcome =
      Ends (λ ret a. is_success ret ≡ false → Clean a)
        (λ ret a t. (is_success ret ≡ false) × Refused a t)

  pub quiesce-balance :
      (s : Driver)
      → (opens (quiesce_datapath site.kit s).history ≡ opens s.history)
        × (closes (quiesce_datapath site.kit s).history ≡ closes s.history)
        × ((quiesce_datapath site.kit s).tx.tx_packet ≡ s.tx.tx_packet)
        × ((quiesce_datapath site.kit s).tx.tx_in_flight ≡ s.tx.tx_in_flight)
        × ((quiesce_datapath site.kit s).life.mac_address ≡ s.life.mac_address)
        × ((quiesce_datapath site.kit s).life.mac_valid ≡ s.life.mac_valid)
  unfolding quiesce_datapath opens closes
  quiesce-balance s = ground arith

  -- The release closes what was opened.
  release-balance :
      (s : Driver)
      → s.tx.tx_packet ≡ none
      → s.tx.tx_in_flight ≡ false
      → (s.life.interface_opened ≡ true → s.handles.interface ≡ true)
      → opens s.history ≡ closes s.history + (if s.life.interface_opened then 1 else 0)
      → let h = (release_resources site.kit s).history in opens h ≡ closes h
  release-balance s e idle there b =
      rw (release_resources-idle site.kit s e idle)
        (unfold opens closes in ground (arith, there, b))

  failed-Clean :
      (a : Attach) → Early a → Clean (record a { driver = start_failed site.kit a.driver })
  unfolding start_failed opens closes
  failed-Clean a e =
      let s = quiesce_datapath site.kit a.driver in
      let q = quiesce-balance a.driver in
      let w = quiesce_datapath-shuts site.kit a.driver in
      let v = release_resources-Released site.kit a.driver (Early-TxInv a e) e.opened in
      let b =
        release-balance s (q.2 ∙ e.packet) (q.3 ∙ e.idle) (rw (w.2, w.3) e.opened)
          (rw (q.0, q.1, w.2) e.balance) in
      record { handles = v.handles; balance = omega (arith, b); unregistered = e.unregistered }

  pub steps-Early :
      (a : Attach)
      → (a.driver.handles.interface ≡ true) × (a.driver.life.interface_opened ≡ false)
      → Early a
      → Early (in_turn (start_steps site) a).1
  unfolding in_turn
  steps-Early a f e =
      if-cases (λ (o : KernReturn × Attach). Early o.1) (is_success (open_provider site a).0)
        (in_turn (opened_steps site) (open_provider site a).1) (open_provider site a)
        (λ _.
          in_turn_inv Early (opened_steps site) (opened_steps-Early site) _
            (open_provider-Early site a f e))
        (λ _. open_provider-Early site a f e)

  register-Outcome : (a : Attach) → Early a → Outcome (register_interface site a)
  unfolding register_interface
  register-Outcome a e =
      let ret = site.register_ethernet a.driver.life.mac_address in
      if-cases Outcome (not (is_success ret)) _ _
        (λ bad. (
          ground (arith, bad),
          record {
            tried =
                ap (λ r. a.driver.life.mac_address ∷ r) e.unregistered
                ∙ ap (λ (m : List ℕ). m ∷ []) (sym (quiesce-balance a.driver).4);
            shut = quiesce-IsQuiet site.kit a.driver;
            teardown = refl;
          },
        ))
        (λ ok h. absurd (unfold is_success in cc h))

  -- An attach of a new driver that returns a failure, at whatever step it failed, has left every pointer
  -- null, closed the interface as often as it opened it, and registered nothing. If the registration
  -- itself was refused, it was tried once, the driver is stopping, the receive loop does not run and the
  -- gate of the transmit path is closed, and the teardown has begun with what there is to cancel.
  pub start-Outcome : Outcome (start site new_attach)
  unfolding start start_on_interface
  start-Outcome =
      let a = with_handles (λ h. record h { interface = true }) new_attach in
      let o = in_turn (start_steps site) a in
      let e = steps-Early a (refl, refl) new-Early in
      if-cases Outcome (not (is_success site.super_start)) _ _
        (λ _ _. record {
          handles = refl;
          balance = unfold opens closes in refl;
          unregistered = refl;
        })
        (λ _.
          if-cases Outcome (not site.is_interface) _ _
            (λ _ _. record {
              handles = refl;
              balance = unfold opens closes in refl;
              unregistered = refl;
            })
            (λ _.
              if-cases Outcome (not (is_success o.0)) _ _ (λ _ _. failed-Clean o.1 e)
                (λ _. register-Outcome o.1 e)))
