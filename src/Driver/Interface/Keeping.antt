-- ===== src/Driver/Interface/Keeping.antt =====
-- What enabling and disabling the interface keeps, from what its parts keep.
use smsc95xx_macos.Base.{ℕ, ◌+◌, refl, Bool, true, false, not, ◌&&◌, List, [], ◌∷◌, if-cases, take}
use smsc95xx_macos.Driver.Status.{KernReturn, is_success}
use smsc95xx_macos.Driver.Kit.{Kit, queue_enable, super_enable, report_link}
use smsc95xx_macos.Driver.State.{Driver, record_event}
use smsc95xx_macos.Driver.Rx.{arm_rx_read}
use smsc95xx_macos.Driver.Rx.Tail.{Steady}
use smsc95xx_macos.Driver.Interface.{
  queues, enable_queues, disable_queues, enable_failed, enable_receive, enable_interface,
  disable_interface, set_interface_enable,
}

-- What the three calls of the interface keep.
pub record Unaffected (I : Driver → Type 0) : Type 0 where
  pub queue :
      (s : Driver) (i : ℕ) (b : Bool) (r : KernReturn)
      → I s
      → I (record_event (queue_enable i b r) s)
  pub base : (s : Driver) (b : Bool) (r : KernReturn) → I s → I (record_event (super_enable b r) s)
  pub link : (s : Driver) (b : Bool) (r : KernReturn) → I s → I (record_event (report_link b r) s)

module _ (kit : Kit) (I : Driver → Type 0) (k : Steady kit I) (u : Unaffected I) where
  disable_queues_inv : (qs : List (ℕ × Bool)) (s : Driver) → I s → I (disable_queues kit qs s)
  unfolding disable_queues
  disable_queues_inv [] s i = i
  disable_queues_inv ((q, false) ∷ qs) s i = disable_queues_inv qs s i
  disable_queues_inv ((q, true) ∷ qs) s i =
      disable_queues_inv qs _ (u.queue s q false (kit.enable_queue s.history q false) i)

  enable_queues_inv :
      (qs : List (ℕ × Bool)) (n : ℕ) (s : Driver) → I s → I (enable_queues kit qs n s).2
  unfolding enable_queues
  enable_queues_inv [] n s i = i
  enable_queues_inv ((q, false) ∷ qs) n s i = enable_queues_inv qs (n + 1) s i
  enable_queues_inv ((q, true) ∷ qs) n s i =
      let ret = kit.enable_queue s.history q true in
      let j = u.queue s q true ret i in
      if-cases (λ (o : KernReturn × ℕ × Driver). I o.2) (is_success ret) _ _
        (λ _. enable_queues_inv qs (n + 1) (record_event (queue_enable q true ret) s) j) (λ _. j)

  enable_failed_inv :
      (ret : KernReturn) (n : ℕ) (s : Driver) → I s → I (enable_failed kit ret n s).1
  unfolding enable_failed
  enable_failed_inv ret n s i =
      u.base _ false _ (u.link _ false _ (disable_queues_inv (take n (queues s)) s i))

  enable_receive_inv : (n : ℕ) (s : Driver) → I s → I (enable_receive kit n s).1
  unfolding enable_receive
  enable_receive_inv n s i =
      let x = record s.rx { rx_running = true; rx_idle_run = 0; rx_backoff_active = false } in
      let s1 = record s { rx = x } in
      let o = arm_rx_read kit s1 in
      let j : I o.1 = k.arm s1 (k.counters s x (refl, refl, refl, refl, refl) i) in
      if-cases (λ (p : KernReturn × Driver). I p.1) (is_success o.0) _ _ (λ _. j)
        (λ _.
          enable_failed_inv o.0 n _ (
            k.counters o.1 (record o.1.rx { rx_running = false }) (refl, refl, refl, refl, refl) j))

  enable_interface_inv : (s : Driver) → I s → I (enable_interface kit s).1
  unfolding enable_interface
  enable_interface_inv s i =
      let P = λ (p : KernReturn × Driver). I p.1 in
      let o = enable_queues kit (queues s) 0 s in
      let j : I o.2 = enable_queues_inv (queues s) 0 s i in
      let l = u.link o.2 true (kit.link_status o.2.history true) j in
      if-cases P (not (is_success o.0)) _ _ (λ _. enable_failed_inv o.0 o.1 o.2 j)
        (λ _.
          if-cases P (not (is_success (kit.link_status o.2.history true))) _ _
            (λ _. enable_failed_inv _ o.1 _ l) (λ _. enable_receive_inv o.1 _ l))

  disable_interface_inv : (s : Driver) → I s → I (disable_interface kit s).1
  unfolding disable_interface
  disable_interface_inv s i =
      let x = record s.rx { rx_running = false } in
      disable_queues_inv _ (record s { rx = x }) (k.counters s x (refl, refl, refl, refl, refl) i)

  -- On every branch of `setInterfaceEnable`, its failures included.
  pub set_interface_enable_inv :
      (enable : Bool) (s : Driver) → I s → I (set_interface_enable kit enable s).1
  unfolding set_interface_enable
  set_interface_enable_inv enable s i =
      let P = λ (p : KernReturn × Driver). I p.1 in
      let ret = kit.enable_super s.history enable in
      let j = u.base s enable ret i in
      if-cases P (enable && s.life.stopping) _ _ (λ _. i)
        (λ _.
          if-cases P (not (is_success ret)) _ _ (λ _. j)
            (λ _.
              if-cases P enable _ _ (λ _. enable_interface_inv _ j)
                (λ _. disable_interface_inv _ j)))
