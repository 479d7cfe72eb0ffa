-- ===== src/Driver/Interface/Enabling.antt =====
-- Enabling the interface: its two outcomes.
use smsc95xx_macos.Base.{
  ℕ, ◌+◌, ◌≡◌, refl, ap, ◌∙◌, Bool, true, false, not, ◌&&◌, List, [], ◌∷◌, if-cases, if-true, take,
  arith,
}
use smsc95xx_macos.Driver.Status.{KernReturn, is_success, is_success-success}
use smsc95xx_macos.Driver.Kit.{Kit, queue_enable, super_enable}
use smsc95xx_macos.Driver.State.{Driver, Receive, record_event}
use smsc95xx_macos.Driver.Rx.{arm_rx_read}
use smsc95xx_macos.Driver.Rx.Arming.{arm_rx_read-armed}
use smsc95xx_macos.Driver.Interface.{
  queues, enable_queues, disable_queues, enable_failed, enable_receive, enable_interface,
  disable_interface, set_interface_enable,
}

module _ (kit : Kit) where
  -- A receive loop that runs has a read outstanding after a success; after a failure it does not run.
  abbrev pub Outcome : KernReturn × Driver → Type 0
  Outcome o =
      (is_success o.0 ≡ true → (o.1.rx.rx_running ≡ true) × (o.1.rx.rx_armed ≡ true))
      × (is_success o.0 ≡ false → o.1.rx.rx_running ≡ false)

  disable_queues-rx : (qs : List (ℕ × Bool)) (s : Driver) → (disable_queues kit qs s).rx ≡ s.rx
  unfolding disable_queues
  disable_queues-rx [] s = refl
  disable_queues-rx ((i, false) ∷ qs) s = disable_queues-rx qs s
  disable_queues-rx ((i, true) ∷ qs) s =
      disable_queues-rx qs
        (record_event (queue_enable i false (kit.enable_queue s.history i false)) s)

  enable_queues-rx :
      (qs : List (ℕ × Bool)) (n : ℕ) (s : Driver) → (enable_queues kit qs n s).2.rx ≡ s.rx
  unfolding enable_queues
  enable_queues-rx [] n s = refl
  enable_queues-rx ((i, false) ∷ qs) n s = enable_queues-rx qs (n + 1) s
  enable_queues-rx ((i, true) ∷ qs) n s =
      let ret = kit.enable_queue s.history i true in
      if-cases (λ (o : KernReturn × ℕ × Driver). o.2.rx ≡ s.rx) (is_success ret) _ _
        (λ _. enable_queues-rx qs (n + 1) (record_event (queue_enable i true ret) s)) (λ _. refl)

  failed-Outcome :
      (ret : KernReturn) (n : ℕ) (s : Driver)
      → is_success ret ≡ false
      → s.rx.rx_running ≡ false
      → Outcome (enable_failed kit ret n s)
  unfolding enable_failed
  failed-Outcome ret n s bad off = (
    (λ h. absurd (ground (arith, bad, h))),
    (λ _. ap (λ (r : Receive). r.rx_running) (disable_queues-rx (take n (queues s)) s) ∙ off),
  )

  receive-Outcome : (n : ℕ) (s : Driver) → Outcome (enable_receive kit n s)
  unfolding enable_receive
  receive-Outcome n s =
      let s1 = record s {
        rx = record s.rx { rx_running = true; rx_idle_run = 0; rx_backoff_active = false };
      } in
      let o = arm_rx_read kit s1 in
      if-cases Outcome (is_success o.0) _ _
        (λ ok. (
          (λ _. arm_rx_read-armed kit s1 ok),
          (λ h. absurd (ground (arith, h, is_success-success))),
        ))
        (λ bad.
          failed-Outcome o.0 n (record o.1 { rx = record o.1.rx { rx_running = false } }) bad refl)

  interface-Outcome : (s : Driver) → s.rx.rx_running ≡ false → Outcome (enable_interface kit s)
  unfolding enable_interface
  interface-Outcome s off =
      let o = enable_queues kit (queues s) 0 s in
      let still : o.2.rx.rx_running ≡ false =
        ap (λ (r : Receive). r.rx_running) (enable_queues-rx (queues s) 0 s) ∙ off in
      if-cases Outcome (not (is_success o.0)) _ _
        (λ bad. failed-Outcome o.0 o.1 o.2 (ground (arith, bad)) still)
        (λ _.
          if-cases Outcome (not (is_success (kit.link_status o.2.history true))) _ _
            (λ bad. failed-Outcome _ o.1 _ (ground (arith, bad)) still)
            (λ _. receive-Outcome o.1 _))

  -- Enabling an interface whose receive loop is stopped: on success the loop runs and a read is
  -- outstanding; on any failure, the base class's, a queue's, the link report's or the first read's,
  -- the loop is stopped.
  pub set_interface_enable-Outcome :
      (s : Driver) → s.rx.rx_running ≡ false → Outcome (set_interface_enable kit true s)
  unfolding set_interface_enable is_success
  set_interface_enable-Outcome s off =
      if-cases Outcome (true && s.life.stopping) _ _ (λ _. ((λ h. cc h), (λ _. off)))
        (λ _.
          if-cases Outcome (not (is_success (kit.enable_super s.history true))) _ _
            (λ bad. ((λ h. absurd (ground (arith, bad, h))), (λ _. off)))
            (λ _.
              interface-Outcome
                (record s {
                  history = super_enable true (kit.enable_super s.history true) ∷ s.history;
                })
                off))

  pub set_interface_enable-stopping :
      (s : Driver)
      → s.life.stopping ≡ true
      → set_interface_enable kit true s ≡ (KernReturn.offline, s)
  unfolding set_interface_enable
  set_interface_enable-stopping s e = if-true (true && s.life.stopping) _ _ e

  -- Once the driver is stopping, setting the interface either way does not start the receive loop.
  pub set_interface_enable-still :
      (b : Bool) (s : Driver)
      → s.life.stopping ≡ true
      → s.rx.rx_running ≡ false
      → (set_interface_enable kit b s).1.rx.rx_running ≡ false
  set_interface_enable-still true s e off =
      ap (λ (o : KernReturn × Driver). o.1.rx.rx_running) (set_interface_enable-stopping s e) ∙ off
  set_interface_enable-still false s e off =
      unfold set_interface_enable disable_interface in
      if-cases (λ (o : KernReturn × Driver). o.1.rx.rx_running ≡ false)
        (not (is_success (kit.enable_super s.history false))) _ _ (λ _. off)
        (λ _. ap (λ (r : Receive). r.rx_running) (disable_queues-rx _ _))
