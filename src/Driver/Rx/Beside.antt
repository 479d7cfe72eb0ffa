-- ===== src/Driver/Rx/Beside.antt =====
-- What decoding and delivering leave alone: the transmit path, the reads, and their flags.
use smsc95xx_macos.Base.{
  ℕ, ◌+◌, ◌^◌, ◌<◌, ◌≡◌, refl, subst, ◌∙◌, not, Option, none, some, List, [], ◌∷◌, if◌then◌else◌,
  if-cases, u32, length, arith,
}
use smsc95xx_macos.Proto.Rx.{RxRecord}
use smsc95xx_macos.Driver.Status.{is_success}
use smsc95xx_macos.Driver.Kit.{Kit, Event, History, async_in, packet_write, set_length}
use smsc95xx_macos.Driver.State.{Driver}
use smsc95xx_macos.Driver.Tx.Loop.{OnSome}
use smsc95xx_macos.Driver.Tx.Ledger.{transmit_calls}
use smsc95xx_macos.Driver.Rx.{
  rx_allocate, rx_acquire_packet, rx_give_back, rx_deallocate, deliver_packet, rx_hand_over,
  rx_record, rx_walk, drop_record, for_set_len, for_bad_addr, for_bad_fit,
}
use smsc95xx_macos.Driver.Rx.Steps.{ended, counted, payload_of, record_cases}
use smsc95xx_macos.Driver.Rx.Walk.{rx_walk_inv}

-- A read that the pipe accepted.
abbrev pub accepts : Event → ℕ
accepts (async_in r) = if is_success r then 1 else 0
accepts _ = 0

unfoldable pub accepted : History → ℕ
accepted [] = 0
accepted (e ∷ h) = accepts e + accepted h

-- What decoding and delivering leave alone.
pub record Beside (s t : Driver) : Type 0 where
  pub handles : t.handles ≡ s.handles
  pub tx : t.tx ≡ s.tx
  pub life : t.life ≡ s.life
  pub armed : t.rx.rx_armed ≡ s.rx.rx_armed
  pub reads : accepted t.history ≡ accepted s.history
  pub running : t.rx.rx_running ≡ s.rx.rx_running
  pub sends : transmit_calls t.history ≡ transmit_calls s.history

Beside_trans : {s t u : Driver} → Beside s t → Beside t u → Beside s u
Beside_trans a b = record {
  handles = b.handles ∙ a.handles;
  tx = b.tx ∙ a.tx;
  life = b.life ∙ a.life;
  armed = b.armed ∙ a.armed;
  reads = b.reads ∙ a.reads;
  running = b.running ∙ a.running;
  sends = b.sends ∙ a.sends;
}

-- The same state in all of these.
abbrev same :
    {s t : Driver}
    → (t.handles ≡ s.handles)
      × (t.tx ≡ s.tx)
      × (t.life ≡ s.life)
      × (t.rx.rx_armed ≡ s.rx.rx_armed)
      × (accepted t.history ≡ accepted s.history)
      × (t.rx.rx_running ≡ s.rx.rx_running)
      × (transmit_calls t.history ≡ transmit_calls s.history)
    → Beside s t
same (a, b, c, d, e, f, h) = record {
  handles = a;
  tx = b;
  life = c;
  armed = d;
  reads = e;
  running = f;
  sends = h;
}

module _ (kit : Kit) where
  acquire-Beside : (s : Driver) → Beside s (rx_acquire_packet kit s).1
  unfolding rx_acquire_packet rx_allocate accepted transmit_calls
  acquire-Beside s = same (ground arith)

  give_back-Beside : (p : ℕ) (s : Driver) → Beside s (rx_give_back kit p s)
  unfolding rx_give_back rx_deallocate accepted transmit_calls
  give_back-Beside p s = same (ground arith)

  deliver-Beside : (p : ℕ) (s : Driver) → Beside s (deliver_packet kit p s).1
  unfolding deliver_packet rx_give_back rx_deallocate accepted transmit_calls
  deliver-Beside p s = same (ground arith)

  hand_over-Beside :
      (p off : ℕ) (payload : List ℕ) (s : Driver) → Beside s (rx_hand_over kit p off payload s)
  unfolding rx_hand_over accepted transmit_calls
  hand_over-Beside p off payload s =
      let len = u32 (length payload) in
      let ret = kit.set_data_length (packet_write p off payload ∷ s.history) p len in
      let s2 = record s {
        history = set_length p len ret ∷ packet_write p off payload ∷ s.history;
      } in
      let d = deliver-Beside p s2 in
      if-cases (Beside s) (not (is_success ret)) _ _
        (λ _.
          let g = give_back-Beside p (drop_record for_set_len s2) in
          same (g.handles, g.tx, g.life, g.armed, omega (arith, g.reads), g.running, g.sends))
        (λ _.
          if-cases (Beside s) (deliver_packet kit p s2).0 _ _
            (λ _.
              same (d.handles, d.tx, d.life, d.armed, omega (arith, d.reads), d.running, d.sends))
            (λ _.
              same (d.handles, d.tx, d.life, d.armed, omega (arith, d.reads), d.running, d.sends)))

  record-Beside :
      (bytes : List ℕ) (r : RxRecord) (s : Driver) → Beside s (ended (rx_record kit bytes r s))
  unfolding rx_deallocate transmit_calls
  record-Beside bytes r s =
      let a = acquire-Beside (counted s) in
      let got : (o : Option ℕ) (t : Driver)
          → rx_acquire_packet kit (counted s) ≡ (o, t)
          → Beside s t =
        λ o t e.
          let c = subst (λ (q : Option ℕ × Driver). Beside (counted s) q.1) e a in
          same (c.handles, c.tx, c.life, c.armed, c.reads, c.running, c.sends) in
      record_cases kit (Beside s) bytes r s (same (refl, refl, refl, refl, refl, refl, refl))
        (same (refl, refl, refl, refl, refl, refl, refl))
        (same (refl, refl, refl, refl, refl, refl, refl))
        (λ t e.
          let g = got none t e in
          same (g.handles, g.tx, g.life, g.armed, g.reads, g.running, g.sends))
        (λ p t e.
          let g = got (some p) t e in
          released p (drop_record for_bad_addr t)
            (same (g.handles, g.tx, g.life, g.armed, g.reads, g.running, g.sends)))
        (λ p t e.
          let g = got (some p) t e in
          released p (drop_record for_bad_fit t)
            (same (g.handles, g.tx, g.life, g.armed, g.reads, g.running, g.sends)))
        (λ p t e long fits mapped inside.
          Beside_trans (got (some p) t e)
            (hand_over-Beside p (kit.data_off t.history p) (payload_of bytes r) t))
    where
      released : (p : ℕ) (t : Driver) → Beside s t → Beside s (rx_deallocate kit p t)
      released p t g = same (
        g.handles,
        g.tx,
        g.life,
        g.armed,
        unfold accepted in omega (arith, g.reads),
        g.running,
        g.sends,
      )

  pub walk-Beside :
      (fuel count : ℕ) (bytes : List ℕ) (s : Driver)
      → count < 2 ^ 62
      → OnSome (λ (r : Driver × ℕ). Beside s r.0) (rx_walk kit fuel bytes count 0 0 s)
  walk-Beside fuel count bytes s small =
      rx_walk_inv kit (Beside s) bytes count
        (λ at r t o e b. Beside_trans b (record-Beside bytes r t)) fuel 0 0 s
        (record { small = small; near = omega arith; aligned = refl })
        (same (refl, refl, refl, refl, refl, refl, refl))
