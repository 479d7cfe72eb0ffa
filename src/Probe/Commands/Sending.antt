-- ===== src/Probe/Commands/Sending.antt =====
-- What cmd_tx puts on the wire.
use mathlib.Core.Option
use smsc95xx_macos.Base.{
  ℕ, ◌+◌, ◌≡◌, ◌∙◌, ◌⊎◌, inl, inr, refl, sym, ap, subst, Bool, true, false, Option, none, some,
  List, [], ◌∷◌, ◌++◌, if◌then◌else◌, is_some, length, take, drop, replicate, write_at, u32,
  take-append, arith,
}
use smsc95xx_macos.Proto.Tx.Header.{header, tx_prepend_writes}
use smsc95xx_macos.Driver.Status.{KernReturn, is_success}
use smsc95xx_macos.Init.{Trace}
use smsc95xx_macos.Probe
use smsc95xx_macos.Probe.Commands.{
  World, Link, resolve_mac, resolved, with_mac, probe_tag, probe_frame, exit_of, usb_bulk_out,
  submit_frame, send_frame, send_with, cmd_tx,
}
use smsc95xx_macos.Probe.Commands.Station.{Trusted, resolve_mac-Trusted}
use smsc95xx_macos.Probe.Commands.Claiming.{
  IsFair, IsSound, BroughtUp, bring_up-BroughtUp, usb_bulk_out-submits,
}

-- The frame of an address, byte by byte.
abbrev pub broadcast_frame : List ℕ → List ℕ
broadcast_frame mac = replicate 6 0xFF ++ (mac ++ (0x88 ∷ 0xB5 ∷ (probe_tag ++ replicate 11 0)))

probe_frame-broadcast :
    (mac : List ℕ)
    → length mac ≡ 6
    → (probe_frame mac ≡ broadcast_frame mac) × (length (probe_frame mac) ≡ 42)
unfolding probe_frame
probe_frame-broadcast (a ∷ b ∷ c ∷ d ∷ e ∷ f ∷ []) h = (refl, refl)
probe_frame-broadcast _ h = absurd (omega (arith, h))

-- The bytes of the transfer, whatever the array held before.
bytes_of_frame :
    (xfer frame : List ℕ)
    → length frame ≡ 42
    → take (u32 (8 + 42)) (write_at 8 frame (header 42 ++ drop 8 xfer)) ≡ header 42 ++ frame
bytes_of_frame xfer frame h =
    let rest = drop (8 + length frame) (header 42 ++ drop 8 xfer) in
    ap (λ n. header 42 ++ take n (frame ++ rest)) (sym h)
    ∙ ap (λ (f : List ℕ). header 42 ++ f) (take-append frame rest)

pub Trusted-six :
    (w : World) (o : Option (List ℕ)) (t : Trace) (mac : List ℕ)
    → Trusted w o t mac
    → length mac ≡ 6
Trusted-six w (some s) t mac (_, same, _) = ap length same
Trusted-six w none t mac (_, _, six, _) = six

-- The transfer of an address.
abbrev pub transfer_of : List ℕ → List ℕ
transfer_of mac = header 42 ++ broadcast_frame mac

-- Nothing was sent; or one transfer was submitted, on a chip that was brought up with the address.
abbrev pub Sent : World → Option (List ℕ) → Link → ℕ × Link → Type 0
Sent w o l (rc, l1) =
    IsSound l1
    × (((rc ≡ 1) × (l1.sent ≡ l.sent))
        ⊎ ((mac : List ℕ) × ((resolve_mac w o l.trace).0 ≡ some mac)
            × (is_success (Probe.init w.pipe true mac true (resolve_mac w o l.trace).1).0 ≡ true)
            × (l1.sent ≡ transfer_of mac ∷ l.sent)
            × (rc ≡ (
                if is_success (w.write_pipe l1.handle.pipe_out (transfer_of mac)) then 0 else 1))))

send_frame-up :
    (w : World) (mac : List ℕ) (l : Link)
    → length mac ≡ 6
    → IsSound l
    → is_some l.handle.iface ≡ true
    → send_frame w mac (true, l) ≡ (
      (if is_success (w.write_pipe l.handle.pipe_out (transfer_of mac)) then 0 else 1),
      record l { sent = transfer_of mac ∷ l.sent },
    )
unfolding send_frame submit_frame
send_frame-up w mac l six sound there =
    let (same, long) = probe_frame-broadcast mac six in
    let bytes =
      bytes_of_frame w.xfer (probe_frame mac) long ∙ ap (λ (f : List ℕ). header 42 ++ f) same in
    ap (submit_frame w (probe_frame mac) l)
      (tx_prepend_writes w.xfer 50 42 (omega arith) (omega arith) (omega arith))
    ∙ ap (λ (b : List ℕ). exit_of (usb_bulk_out w b l)) bytes
    ∙ ap exit_of (usb_bulk_out-submits w (transfer_of mac) l sound there)
    ∙ either (w.write_pipe l.handle.pipe_out (transfer_of mac))
        (record l { sent = transfer_of mac ∷ l.sent })
  where
    either :
        (kr : KernReturn) (l1 : Link) → exit_of (kr, l1) ≡ ((if is_success kr then 0 else 1), l1)
    either kr l1 = ground arith

frame-Sent :
    (w : World) (o : Option (List ℕ)) (l : Link) (mac : List ℕ) (r : Bool × Link)
    → (resolve_mac w o l.trace).0 ≡ some mac
    → BroughtUp w mac (resolved w o l) r
    → Sent w o l (send_frame w mac r)
frame-Sent w o l mac (false, l1) known (sound, sent, _, _) =
    unfold send_frame in (sound, inl (refl, sent))
frame-Sent w o l mac (true, l1) known (sound, sent, _, up) =
    let (there, went, _) = up refl in
    subst (Sent w o l)
      (sym (
        send_frame-up w mac l1
          (Trusted-six w o l.trace mac (resolve_mac-Trusted w o l.trace mac known)) sound there))
      (sound, inr (mac, known, went, ap (λ (s : List (List ℕ)). transfer_of mac ∷ s) sent, refl))

-- If no interface has 255 pipes, cmd_tx returns, and either it reports 1 and has sent nothing; or it
-- brought the chip up with the address it resolved, and submitted one transfer: the command header for
-- 42 bytes, and then the frame, to everyone, from this address, of type 0x88B5 and with the tag. Then
-- it reports 0 exactly if the transfer succeeded.
pub cmd_tx-Sent :
    (w : World) (o : Option (List ℕ)) (l : Link)
    → IsFair w
    → IsSound l
    → (r : ℕ × Link) × (cmd_tx w o l ≡ some r) × Sent w o l r
unfolding cmd_tx with_mac send_with
cmd_tx-Sent w o l fair sound = by_mac (resolve_mac w o l.trace).0 refl
  where
    by_mac :
        (m : Option (List ℕ))
        → (resolve_mac w o l.trace).0 ≡ m
        → (r : ℕ × Link) × (with_mac w m (resolved w o l) (send_with w (resolved w o l)) ≡ some r)
          × Sent w o l r
    by_mac none e = ((1, resolved w o l), refl, (sound, inl (refl, refl)))
    by_mac (some mac) e =
        let (b, eb, up) = bring_up-BroughtUp w mac (resolved w o l) fair sound in
        (send_frame w mac b, ap (Option.map (send_frame w mac)) eb, frame-Sent w o l mac b e up)
