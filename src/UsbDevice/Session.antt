-- ===== src/UsbDevice/Session.antt =====
-- The device's session: opened and closed as often, and configured only where it was not.
use smsc95xx_macos.Base.{
  ℕ, ◌+◌, ◌≤◌, ◌≡◌, refl, Bool, true, false, not, ◌&&◌, List, [], ◌∷◌, if◌then◌else◌, if-cases, inl,
  inr, Bool-cases, arith,
}
use smsc95xx_macos.Driver.Status.{KernReturn, is_success, is_success-success}
use smsc95xx_macos.UsbDevice.{
  Host, Call, opened, closed, interface_copied, interface_released, configured, Device, stop,
  copy_first_interface, select_configuration, configure, start_device,
}

-- How a call changes the number of open sessions: first those begun, then those ended.
abbrev begins : Call → ℕ
begins (opened r) = if is_success r then 1 else 0
begins _ = 0

abbrev ends : Call → ℕ
ends closed = 1
ends _ = 0

-- References to an interface that were handed out, and those released.
abbrev hands_out : Call → ℕ
hands_out (interface_copied r there) = if is_success r && there then 1 else 0
hands_out _ = 0

abbrev gives_back : Call → ℕ
gives_back interface_released = 1
gives_back _ = 0

abbrev selects : Call → ℕ
selects (configured r) = 1
selects _ = 0

unfoldable pub total : (Call → ℕ) → List Call → ℕ
total f [] = 0
total f (c ∷ cs) = f c + total f cs

-- The device is recorded exactly while its session is open, and no interface is kept.
pub record Balanced (d : Device) : Type 0 where
  pub session : total begins d.calls ≡ total ends d.calls + (if d.device then 1 else 0)
  pub interfaces : total hands_out d.calls ≡ total gives_back d.calls
  -- a configuration is selected, or an interface was found, never both
  pub once : total selects d.calls + total hands_out d.calls ≤ 1

abbrev pub new_device : Device
new_device = record { device = false; calls = [] }

abbrev pub Settled : KernReturn × Device → Type 0
Settled o = Balanced o.1 × (o.1.device ≡ is_success o.0)

-- With the session open, nothing held, and nothing selected.
record IsOpen (d : Device) : Type 0 where
  there : d.device ≡ true
  session : total begins d.calls ≡ total ends d.calls + 1
  interfaces : total hands_out d.calls ≡ total gives_back d.calls
  first : total selects d.calls + total hands_out d.calls ≡ 0

module _ (host : Host) where
  select-Settled : (d : Device) → IsOpen d → Settled (select_configuration host d)
  unfolding select_configuration total
  select-Settled d o =
      if-cases Settled (not (is_success host.set_configuration)) _ _
        (λ bad. (
          record {
            session = omega (arith, o.session);
            interfaces = omega (arith, o.interfaces);
            once = omega (arith, o.first);
          },
          ground (arith, bad),
        ))
        (λ ok. (
          record {
            session = ground (arith, o.session, o.there);
            interfaces = omega (arith, o.interfaces);
            once = omega (arith, o.first);
          },
          ground (arith, o.there, is_success-success),
        ))

  configure-Settled : (d : Device) → IsOpen d → Settled (configure host d)
  unfolding configure copy_first_interface total
  configure-Settled d o =
      let (ret, there) = host.copy_interface in
      let found : Bool = is_success ret && there in
      elim (Bool-cases (is_success host.create_iterator)) [
        | inr e ↦ rw e (
            if-cases Settled (is_success host.create_iterator && false) _ _
              (λ never. absurd (ground (arith, e, never)))
              (λ _. select-Settled _ (record {
                there = o.there;
                session = omega (arith, o.session);
                interfaces = omega (arith, o.interfaces);
                first = omega (arith, o.first);
              })))
        | inl e ↦ rw e (
            if-cases Settled found _ _
              (λ yes. (
                record {
                  session = ground (arith, o.session, o.there);
                  interfaces = ground (arith, o.interfaces, yes);
                  once = ground (arith, o.first, yes);
                },
                ground (arith, o.there, is_success-success),
              ))
              (λ no. select-Settled _ (record {
                there = o.there;
                session = omega (arith, o.session);
                interfaces = ground (arith, o.interfaces, no);
                first = ground (arith, o.first, no);
              })))
      ]

  -- Whatever the host answers, the start of the device leaves its session open exactly if it succeeds, has
  -- released the interface that it found, and selected a configuration only if it found none.
  pub start_device-Settled : Settled (start_device host new_device)
  unfolding start_device total
  start_device-Settled =
      if-cases Settled (not (is_success host.super_start)) _ _
        (λ bad.
          (record { session = refl; interfaces = refl; once = omega arith }, ground (arith, bad)))
        (λ _.
          if-cases Settled (not host.is_device) _ _
            (λ bad. (
              record { session = refl; interfaces = refl; once = omega arith },
              unfold is_success in refl,
            ))
            (λ _.
              if-cases Settled (not (is_success host.open_device)) _ _
                (λ bad. (
                  record { session = ground (arith, bad); interfaces = refl; once = omega arith },
                  ground (arith, bad),
                ))
                (λ ok. configure-Settled _ (record {
                  there = refl;
                  session = ground (arith, ok);
                  interfaces = refl;
                  first = refl;
                }))))

-- A started device that is stopped has closed its session, and kept nothing.
pub stop-Balanced : (d : Device) → Balanced d → Balanced (stop d) × ((stop d).device ≡ false)
unfolding stop total
stop-Balanced d b = (
  record {
    session = ground (arith, b.session);
    interfaces = ground (arith, b.interfaces);
    once = ground (arith, b.once);
  },
  ground arith,
)
