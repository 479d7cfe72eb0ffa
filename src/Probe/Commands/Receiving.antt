-- ===== src/Probe/Commands/Receiving.antt =====
-- What cmd_rx waits for, and what it makes of it.
use mathlib.Core.Option
use smsc95xx_macos.Base.{
  ℕ, zero, suc, ◌+◌, ◌≡◌, ◌∙◌, ◌⊎◌, inl, inr, refl, sym, ap, subst, Bool, true, false, not, Option,
  none, some, List, if◌then◌else◌, if-cases, ◌==◌, is_some, replicate, write_at, arith,
}
use smsc95xx_macos.Driver.Status.{is_success}
use smsc95xx_macos.Probe
use smsc95xx_macos.Probe.Commands.{
  World, Link, is_timeout, resolve_mac, resolved, with_mac, receive_one, receive_frames, receive_on,
  receive_with, cmd_rx,
}
use smsc95xx_macos.Probe.Commands.Claiming.{IsFair, IsSound, BroughtUp, bring_up-BroughtUp}
use smsc95xx_macos.Probe.Commands.Waiting.{
  FitsBuffer, ReceivedFrom, Received, count_frames-total, usb_bulk_in-reads, waited-Received,
}

abbrev Receives : World → ℕ → Link → Option (ℕ × Link) → Type 0
Receives w n l o = (r : ℕ × Link) × (o ≡ some r) × Received w n l r

one-Received :
    (w : World) (n : ℕ) (buf : List ℕ) (l : Link) (again : List ℕ → Link → Option (ℕ × Link))
    → FitsBuffer w
    → IsSound l
    → Receives w n
        (record l { reads = l.reads + 1 })
        (again (write_at 0 (w.read_pipe l.reads).2 buf) (record l { reads = l.reads + 1 }))
    → Receives w (suc n) l (
        receive_one again (
          (w.read_pipe l.reads).0,
          (w.read_pipe l.reads).1,
          write_at 0 (w.read_pipe l.reads).2 buf,
          record l { reads = l.reads + 1 },
        ))
unfolding receive_one
one-Received w n buf l again fits sound (r, e, received) =
    let (kr, got, bytes) = w.read_pipe l.reads in
    if-cases (Receives w (suc n) l) (is_timeout kr) _ _
      (λ late. (r, e, waited-Received w n l r (inl late) received))
      (λ there.
        if-cases (Receives w (suc n) l) (not (is_success kr)) _ _
          (λ bad. (
            (1, record l { reads = l.reads + 1 }),
            refl,
            (
              sound,
              refl,
              inr (
                l.reads,
                omega arith,
                omega arith,
                (λ j low high. absurd (omega arith)),
                refl,
                (there, inl (ground (arith, bad), refl)),
              ),
            ),
          ))
          (λ good.
            if-cases (Receives w (suc n) l) (got == 0) _ _
              (λ empty. (
                r,
                e,
                waited-Received w n l r (inr (ground (arith, good), ground (arith, empty)))
                    received,
              ))
              (λ full.
                let (m, em) =
                  count_frames-total (write_at 0 bytes buf) got (got + 4) 0 0
                    (record {
                      small = omega (arith, fits l.reads);
                      near = omega arith;
                      aligned = refl;
                    })
                    (omega arith) in
                (
                  ((if m == 0 then 1 else 0), record l { reads = l.reads + 1 }),
                  ap
                      (Option.map
                        (λ (c : ℕ). ((if c == 0 then 1 else 0), record l { reads = l.reads + 1 })))
                      em,
                  (
                    sound,
                    refl,
                    inr (
                      l.reads,
                      omega arith,
                      omega arith,
                      (λ j low high. absurd (omega arith)),
                      refl,
                      (
                        there,
                        inr (
                          ground (arith, good),
                          (λ z. absurd (ground (arith, full, z))),
                          (buf, m, em, refl),
                        ),
                      ),
                    ),
                  ),
                ))))

frames-Received :
    (w : World) (n : ℕ) (buf : List ℕ) (l : Link)
    → FitsBuffer w
    → IsSound l
    → is_some l.handle.iface ≡ true
    → Receives w n l (receive_frames w n buf l)
unfolding receive_frames
frames-Received w zero buf l fits sound there =
    ((1, l), refl, (sound, refl, inl (refl, (λ j low high. absurd (omega arith)))))
frames-Received w (suc n) buf l fits sound there =
    subst (λ o. Receives w (suc n) l (receive_one (λ buf1 l1. receive_frames w n buf1 l1) o))
      (sym (usb_bulk_in-reads w buf l sound there))
      (one-Received w n buf l (λ buf1 l1. receive_frames w n buf1 l1) fits sound
        (frames-Received w n _ _ fits sound there))

-- The outcome of cmd_rx: nothing was read; or the chip was brought up with the address, and what came
-- in within ten transfers decides.
abbrev pub Listened : World → Option (List ℕ) → Link → ℕ × Link → Type 0
Listened w o l (rc, l1) =
    (IsSound l1 × (l1.sent ≡ l.sent) × (rc ≡ 1) × (l1.reads ≡ l.reads))
    ⊎ ((mac : List ℕ) × ((resolve_mac w o l.trace).0 ≡ some mac)
        × (is_success (Probe.init w.pipe true mac true (resolve_mac w o l.trace).1).0 ≡ true)
        × Received w 10 l (rc, l1))

on-Listened :
    (w : World) (o : Option (List ℕ)) (l : Link) (mac : List ℕ) (b : Bool × Link)
    → FitsBuffer w
    → (resolve_mac w o l.trace).0 ≡ some mac
    → BroughtUp w mac (resolved w o l) b
    → (r : ℕ × Link) × (receive_on w b ≡ some r) × Listened w o l r
unfolding receive_on
on-Listened w o l mac (false, l1) fits known (sound, sent, reads, _) =
    ((1, l1), refl, inl (sound, sent, refl, reads))
on-Listened w o l mac (true, l1) fits known (sound, sent, reads, up) =
    let (there, went, _) = up refl in
    let (r, e, received) = frames-Received w 10 (replicate 4096 0) l1 fits sound there in
    (
      r,
      e,
      inr (
        mac,
        known,
        went,
        subst (λ (n : ℕ). ReceivedFrom w 10 n l.sent r) reads
            (subst (λ (t : List (List ℕ)). ReceivedFrom w 10 l1.reads t r) sent received),
      ),
    )

-- If no interface has 255 pipes and no transfer is longer than the buffer, cmd_rx returns. It reports
-- 1 without a transfer, or brings the chip up with the address it resolved and waits for data for at
-- most ten transfers. A transfer that timed out, or that succeeded empty, is passed over; the first
-- other one decides, 1 at once if it failed, and otherwise 0 exactly if the walk over it found a
-- frame. If all ten are passed over, it reports 1.
pub cmd_rx-Listened :
    (w : World) (o : Option (List ℕ)) (l : Link)
    → IsFair w
    → FitsBuffer w
    → IsSound l
    → (r : ℕ × Link) × (cmd_rx w o l ≡ some r) × Listened w o l r
unfolding cmd_rx with_mac receive_with Option.bind
cmd_rx-Listened w o l fair fits sound = by_mac (resolve_mac w o l.trace).0 refl
  where
    by_mac :
        (m : Option (List ℕ))
        → (resolve_mac w o l.trace).0 ≡ m
        → (r : ℕ × Link) × (with_mac w m (resolved w o l) (receive_with w (resolved w o l))
            ≡ some r)
          × Listened w o l r
    by_mac none e = ((1, resolved w o l), refl, inl (sound, refl, refl, refl))
    by_mac (some mac) e =
        let (b, eb, up) = bring_up-BroughtUp w mac (resolved w o l) fair sound in
        let (r, er, listened) = on-Listened w o l mac b fits e up in
        (r, ap (λ (x : Option (Bool × Link)). Option.bind x (receive_on w)) eb ∙ er, listened)
