-- ===== src/Driver/Rx/Custody.antt =====
-- The walk over a transfer and the books: each record is a frame or a drop, and each packet taken to
-- receive into goes to the stack or back to the pool.
use smsc95xx_macos.Base.{
  ℕ, ◌+◌, ◌^◌, ◌<◌, ◌≡◌, refl, subst, Bool, false, not, ◌&&◌, Option, none, some, List, ◌∷◌, ◌==◌,
  if-cases, incr, u32, length, is_some, arith,
}
use smsc95xx_macos.Proto.Rx.{RxRecord}
use smsc95xx_macos.Driver.Status.{is_success}
use smsc95xx_macos.Driver.Kit.{Kit, rx_dequeue, packet_write, set_length}
use smsc95xx_macos.Driver.State.{Driver}
use smsc95xx_macos.Driver.Tx.Loop.{OnSome}
use smsc95xx_macos.Driver.Rx.{
  rx_allocate, rx_acquire_packet, rx_give_back, rx_deallocate, deliver_packet, rx_hand_over,
  rx_record, rx_walk,
}
use smsc95xx_macos.Driver.Rx.Steps.{ended, counted, payload_of, record_cases}
use smsc95xx_macos.Driver.Rx.Walk.{rx_walk_inv}
use smsc95xx_macos.Driver.Rx.Books.{
  acquires, disposes, acquired, disposed, RxBooks, drop-Books, for_err_sum-IsReason,
  for_short-IsReason, for_oversize-IsReason, for_no_buffer-IsReason, for_bad_addr-IsReason,
  for_bad_fit-IsReason, for_set_len-IsReason, for_enqueue-IsReason,
}

module _ (kit : Kit) where
  deallocate-Books :
      (n p : ℕ) (s : Driver) → RxBooks n (some p) s → RxBooks n none (rx_deallocate kit p s)
  unfolding rx_deallocate
  deallocate-Books n p s b = record {
    identity = b.identity;
    reasons = b.reasons;
    custody = λ q. unfold acquired disposed in ground (arith, b.custody q);
  }

  give_back-Books :
      (n p : ℕ) (s : Driver) → RxBooks n (some p) s → RxBooks n none (rx_give_back kit p s)
  unfolding rx_give_back rx_deallocate
  give_back-Books n p s b = record {
    identity = ground (arith, b.identity);
    reasons = ground (arith, b.reasons);
    custody = λ q. unfold acquired disposed in ground (arith, b.custody q);
  }

  allocate-Books :
      (n : ℕ) (s : Driver)
      → RxBooks n none s
      → RxBooks n (rx_allocate kit s).0 (rx_allocate kit s).1
  unfolding rx_allocate
  allocate-Books n s b = record {
    identity = ground (arith, b.identity);
    reasons = ground (arith, b.reasons);
    custody = λ p. unfold acquired disposed in ground (arith, b.custody p);
  }

  acquire-Books :
      (n : ℕ) (s : Driver)
      → RxBooks n none s
      → RxBooks n (rx_acquire_packet kit s).0 (rx_acquire_packet kit s).1
  unfolding rx_acquire_packet
  acquire-Books n s b =
      let P = λ (r : Option ℕ × Driver). RxBooks n r.0 r.1 in
      let (count, packet) = kit.dequeue_rx s.history in
      if-cases P s.handles.rx_submit _ _
        (λ there.
          let s1 = record s { history = rx_dequeue count packet ∷ s.history } in
          let took = record s1 {
            rx = record s.rx { rx_submit_dequeued = incr s.rx.rx_submit_dequeued };
          } in
          let none_there = record s1 {
            rx = record s.rx { rx_submit_empty = incr s.rx.rx_submit_empty };
          } in
          if-cases P (count == 1 && is_some packet) (packet, took) (rx_allocate kit none_there)
            (λ got. record {
              identity = b.identity;
              reasons = b.reasons;
              custody = λ p. unfold acquired disposed in ground (arith, b.custody p, got);
            })
            (λ missed. allocate-Books n none_there (record {
              identity = b.identity;
              reasons = b.reasons;
              custody =
                  λ p. unfold acquired disposed in missing p count packet missed (b.custody p);
            })))
        (λ gone.
          allocate-Books n _
            (record { identity = b.identity; reasons = b.reasons; custody = b.custody }))
    where
      missing :
          (p count : ℕ) (o : Option ℕ)
          → (count == 1 && is_some o) ≡ false
          → acquired p s.history ≡ disposed p s.history + 0
          → acquires p (rx_dequeue count o) + acquired p s.history
            ≡ disposes p (rx_dequeue count o) + disposed p s.history + 0
      missing p count o missed e = ground arith

  deliver-Books :
      (n p : ℕ) (s : Driver) → RxBooks n (some p) s → RxBooks n none (deliver_packet kit p s).1
  unfolding deliver_packet
  deliver-Books n p s b =
      let ret = kit.enqueue_rx s.history p in
      if-cases (λ (r : Bool × Driver). RxBooks n none r.1) (is_success ret) _ _
        (λ e. record {
          identity = b.identity;
          reasons = b.reasons;
          custody = λ q. unfold acquired disposed in ground (arith, b.custody q, e);
        })
        (λ e. give_back-Books n p _ (record {
          identity = b.identity;
          reasons = b.reasons;
          custody = λ q. unfold acquired disposed in ground (arith, b.custody q, e);
        }))

  hand_over-Books :
      (p off : ℕ) (payload : List ℕ) (s : Driver)
      → RxBooks 1 (some p) s
      → RxBooks 0 none (rx_hand_over kit p off payload s)
  unfolding rx_hand_over
  hand_over-Books p off payload s b =
      let ret =
        kit.set_data_length (packet_write p off payload ∷ s.history) p (u32 (length payload)) in
      let s2 = record s {
        history = set_length p (u32 (length payload)) ret ∷ packet_write p off payload ∷ s.history;
      } in
      let b2 : RxBooks 1 (some p) s2 = record {
        identity = b.identity;
        reasons = b.reasons;
        custody = λ q. unfold acquired disposed in omega (arith, b.custody q);
      } in
      let d = deliver-Books 1 p s2 b2 in
      if-cases (RxBooks 0 none) (not (is_success ret)) _ _
        (λ _. give_back-Books 0 p _ (drop-Books (some p) s2 for_set_len-IsReason b2))
        (λ _.
          if-cases (RxBooks 0 none) (deliver_packet kit p s2).0 _ _
            (λ _. record {
              identity = omega (arith, d.identity);
              reasons = d.reasons;
              custody = d.custody;
            })
            (λ _. drop-Books none _ for_enqueue-IsReason d))

  record-Books :
      (bytes : List ℕ) (r : RxRecord) (s : Driver)
      → RxBooks 0 none s
      → RxBooks 0 none (ended (rx_record kit bytes r s))
  record-Books bytes r s b =
      let open1 : RxBooks 1 none (counted s) = record {
        identity = omega (arith, b.identity);
        reasons = b.reasons;
        custody = b.custody;
      } in
      let got = acquire-Books 1 (counted s) open1 in
      let with_packet : (o : Option ℕ) (t : Driver)
          → rx_acquire_packet kit (counted s) ≡ (o, t)
          → RxBooks 1 o t =
        λ o t e. subst (λ (r : Option ℕ × Driver). RxBooks 1 r.0 r.1) e got in
      record_cases kit (RxBooks 0 none) bytes r s
        (drop-Books none (counted s) for_err_sum-IsReason open1)
        (drop-Books none (counted s) for_short-IsReason open1)
        (drop-Books none (counted s) for_oversize-IsReason open1)
        (λ t e. drop-Books none t for_no_buffer-IsReason (with_packet none t e))
        (λ p t e.
          deallocate-Books 0 p _
            (drop-Books (some p) t for_bad_addr-IsReason (with_packet (some p) t e)))
        (λ p t e.
          deallocate-Books 0 p _
            (drop-Books (some p) t for_bad_fit-IsReason (with_packet (some p) t e)))
        (λ p t e long fits mapped inside.
          hand_over-Books p (kit.data_off t.history p) (payload_of bytes r) t
            (with_packet (some p) t e))

  -- If the books of the receive path are in order, they are so after the walk over a transfer: records
  -- are frames and drops, drops are the sum of their reasons, modulo 2^64, and each packet acquired
  -- was delivered or handed to the pool exactly as often.
  pub rx_walk-Books :
      (fuel count : ℕ) (bytes : List ℕ) (s : Driver)
      → count < 2 ^ 62
      → RxBooks 0 none s
      → OnSome (λ (r : Driver × ℕ). RxBooks 0 none r.0) (rx_walk kit fuel bytes count 0 0 s)
  rx_walk-Books fuel count bytes s small b =
      rx_walk_inv kit (RxBooks 0 none) bytes count (λ at r t o e c. record-Books bytes r t c) fuel 0
        0 s (record { small = small; near = omega arith; aligned = refl }) b
