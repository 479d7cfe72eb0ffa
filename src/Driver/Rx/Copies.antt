-- ===== src/Driver/Rx/Copies.antt =====
-- Memory safety of receive: the copies into packets' buffers.
use smsc95xx_macos.Base.{
  ℕ, ◌+◌, ◌-◌, ◌^◌, ◌≤◌, ◌<◌, ◌≡◌, refl, subst, Bool, not, Option, none, some, List, [], ◌∷◌,
  if-cases, u32, length, drop, length-take, arith,
}
use smsc95xx_macos.Proto.Rx.{RxRecord}
use smsc95xx_macos.Driver.Status.{is_success}
use smsc95xx_macos.Driver.Kit.{Kit, Event, History, packet_write, set_length}
use smsc95xx_macos.Driver.State.{Driver}
use smsc95xx_macos.Driver.Tx.Loop.{OnSome}
use smsc95xx_macos.Driver.Rx.{
  drop_record, for_set_len, rx_allocate, rx_acquire_packet, rx_give_back, rx_deallocate,
  deliver_packet, rx_hand_over, rx_record, rx_walk,
}
use smsc95xx_macos.Driver.Rx.Steps.{ended, counted, payload_of, record_cases}
use smsc95xx_macos.Driver.Rx.Walk.{rx_walk_inv}

-- A copy into a packet's buffer of 2048 bytes is of at most 1518 bytes and stays inside it.
abbrev CopyFits : Event → Type 0
CopyFits (packet_write p off bytes) = (length bytes ≤ 1518) × (off + length bytes ≤ 2048)
CopyFits _ = Unit

abbrev pub CopiesFit : History → Type 0
CopiesFit [] = Unit
CopiesFit (e ∷ h) = CopyFits e × CopiesFit h

module _ (kit : Kit) where
  acquire-fit : (s : Driver) → CopiesFit s.history → CopiesFit (rx_acquire_packet kit s).1.history
  unfolding rx_acquire_packet rx_allocate
  acquire-fit s c = ground arith

  give_back-fit :
      (p : ℕ) (s : Driver) → CopiesFit s.history → CopiesFit (rx_give_back kit p s).history
  unfolding rx_give_back rx_deallocate
  give_back-fit p s c = ground arith

  deliver-fit :
      (p : ℕ) (s : Driver) → CopiesFit s.history → CopiesFit (deliver_packet kit p s).1.history
  unfolding deliver_packet
  deliver-fit p s c =
      let ret = kit.enqueue_rx s.history p in
      if-cases (λ (r : Bool × Driver). CopiesFit r.1.history) (is_success ret) _ _ (λ _. (tt, c))
        (λ _. give_back-fit p _ (tt, c))

  hand_over-fit :
      (p off : ℕ) (payload : List ℕ) (s : Driver)
      → length payload ≤ 1518
      → off + length payload ≤ 2048
      → CopiesFit s.history
      → CopiesFit (rx_hand_over kit p off payload s).history
  unfolding rx_hand_over
  hand_over-fit p off payload s short inside c =
      let len = u32 (length payload) in
      let ret = kit.set_data_length (packet_write p off payload ∷ s.history) p len in
      let s2 = record s {
        history = set_length p len ret ∷ packet_write p off payload ∷ s.history;
      } in
      let c2 : CopiesFit s2.history = (tt, ((short, inside), c)) in
      let P = λ (t : Driver). CopiesFit t.history in
      if-cases P (not (is_success ret)) _ _ (λ _. give_back-fit p (drop_record for_set_len s2) c2)
        (λ _.
          if-cases P (deliver_packet kit p s2).0 _ _ (λ _. deliver-fit p s2 c2)
            (λ _. deliver-fit p s2 c2))

  record-fit :
      (bytes : List ℕ) (r : RxRecord) (s : Driver)
      → ((h : History) (p : ℕ) → kit.data_off h p < 2 ^ 63)
      → CopiesFit s.history
      → CopiesFit (ended (rx_record kit bytes r s)).history
  unfolding rx_deallocate
  record-fit bytes r s small c =
      let got : (o : Option ℕ) (t : Driver)
          → rx_acquire_packet kit (counted s) ≡ (o, t)
          → CopiesFit t.history =
        λ o t e.
          subst (λ (q : Option ℕ × Driver). CopiesFit q.1.history) e (acquire-fit (counted s) c) in
      record_cases kit (λ t. CopiesFit t.history) bytes r s c c c (λ t e. got none t e)
        (λ p t e. (tt, got (some p) t e)) (λ p t e. (tt, got (some p) t e))
        (λ p t e long fits mapped inside.
          let n = length-take (r.frame_len - 4) (drop r.frame bytes) in
          hand_over-fit p (kit.data_off t.history p) (payload_of bytes r) t (omega (arith, n))
            (omega (arith, n, small t.history p)) (got (some p) t e))

  -- If packets' data offsets are below 2^63 and every copy so far stayed inside its packet's buffer,
  -- so does every copy of the walk over a transfer, whatever its bytes.
  pub rx_walk-CopiesFit :
      (fuel count : ℕ) (bytes : List ℕ) (s : Driver)
      → count < 2 ^ 62
      → ((h : History) (p : ℕ) → kit.data_off h p < 2 ^ 63)
      → CopiesFit s.history
      → OnSome (λ (r : Driver × ℕ). CopiesFit r.0.history) (rx_walk kit fuel bytes count 0 0 s)
  rx_walk-CopiesFit fuel count bytes s few small c =
      rx_walk_inv kit (λ t. CopiesFit t.history) bytes count
        (λ at r t o e b. record-fit bytes r t small b) fuel 0 0 s
        (record { small = few; near = omega arith; aligned = refl }) c
