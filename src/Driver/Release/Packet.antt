-- ===== src/Driver/Release/Packet.antt =====
-- Releasing the datapath hands back the packet that is still in flight.
use smsc95xx_macos.Base.{
  subst, sym, if-false, if◌then◌else◌, ◌&&◌, ◌∷◌, ℕ, ◌≡◌, ◌∙◌, refl, ap, true, false, Option, none,
  some, inr, is_some, if-cases, arith, ◌+◌, u64,
}
use smsc95xx_macos.Driver.Kit.{Kit, close_interface}
use smsc95xx_macos.Driver.State.{Driver}
use smsc95xx_macos.Driver.Tx.Ledger.{TxInv, SameRest, held, count_of, taken, given}
use smsc95xx_macos.Driver.Tx.Mailbox.{replay, place, vacant}
use smsc95xx_macos.Driver.Tx.Accounting.{
  tx_return_packet-Ledger, tx_return_packet-Once, tx_return_packet-vacant, tx_return_packet-held,
  tx_return_packet-rest, tx_return_packet-fields,
}
use smsc95xx_macos.Driver.Release.{
  release_resources, close_opened, drop_handles, release_datapath, drop_datapath, release_packet,
}

-- What releasing the packet leaves: none in flight, each packet back, and the rest as it was.
pub record PacketBack (s t : Driver) : Type 0 where
  pub idle : (t.tx.tx_in_flight ≡ false) × (t.tx.tx_packet ≡ none)
  pub bytes : t.tx.tx_bytes ≡ s.tx.tx_bytes
  pub gate : t.tx.tx_datapath_ready ≡ s.tx.tx_datapath_ready
  pub rest : SameRest s t
  pub returned : (p : ℕ) → taken p t.history ≡ given p t.history
  pub mailbox : replay t.history ≡ vacant
  pub balance : t.tx.tx_dequeued ≡ u64 (t.tx.tx_returned + t.tx.tx_lost)

module _ (kit : Kit) where
  packet-Back :
      (o : Option ℕ) (s : Driver)
      → s.tx.tx_packet ≡ o
      → TxInv s
      → PacketBack s (release_packet kit o s)
  unfolding release_packet
  packet-Back none s e v =
      let idle : s.tx.tx_in_flight ≡ false = v.ledger.flag ∙ ap is_some e in
      if-cases (PacketBack s) s.tx.tx_in_flight _ _ (λ busy. absurd (ground (arith, busy, idle)))
        (λ _. record {
          idle = (idle, e);
          bytes = refl;
          gate = refl;
          rest = (refl, refl, refl, refl);
          returned = λ p. omega (arith, v.once p, ap (held p) e);
          mailbox = v.mailbox ∙ ap place e;
          balance = omega (arith, v.ledger.balance, ap count_of e);
        })
  packet-Back (some p) s e v =
      let s1 = record s { tx = record s.tx { tx_packet = none; tx_in_flight = false } } in
      let there : s.handles.tx_complete ≡ true = v.queue (ap is_some e) in
      let f = tx_return_packet-fields kit p s1 in
      let none_held = tx_return_packet-held kit (some p) s1 in
      let settled =
        tx_return_packet-Ledger kit (some p) s1
          (record { flag = refl; balance = omega (arith, v.ledger.balance, ap count_of e) }) in
      record {
        idle = (f.0, none_held);
        bytes = f.1;
        gate = f.2;
        rest = tx_return_packet-rest kit (some p) s1;
        returned = λ q.
            let once =
              tx_return_packet-Once kit (some p) q s1 there
                (omega (arith, v.once q, ap (held q) e)) in
            omega (arith, once, ap (held q) none_held);
        mailbox = tx_return_packet-vacant kit p s1 there (inr (v.mailbox ∙ ap place e));
        balance = omega (arith, settled.balance, ap count_of none_held);
      }

  -- The packet is released with the datapath's handles gone already.
  pub dropped-Back :
      (s : Driver)
      → TxInv s
      → PacketBack (drop_datapath s) (release_packet kit s.tx.tx_packet (drop_datapath s))
  dropped-Back s v = packet-Back s.tx.tx_packet (drop_datapath s) refl (record {
    ledger = record { flag = v.ledger.flag; balance = v.ledger.balance };
    queue = v.queue;
    once = v.once;
    mailbox = v.mailbox;
  })

  -- With nothing in flight, the one call that a release can make is the interface's close.
  pub release_resources-idle :
      (s : Driver)
      → s.tx.tx_packet ≡ none
      → s.tx.tx_in_flight ≡ false
      → (release_resources kit s).history ≡ (
          if s.handles.interface && s.life.interface_opened
          then close_interface ∷ s.history
          else s.history)
  unfolding release_resources release_datapath release_packet
  release_resources-idle s e idle =
      let d = drop_datapath s in
      let same : release_packet kit s.tx.tx_packet d ≡ d =
        ap (λ o. release_packet kit o d) e ∙ if-false s.tx.tx_in_flight _ _ idle in
      subst
        (λ (t : Driver).
          (drop_handles (close_opened (record t { rx = record t.rx { rx_armed = false } }))).history
          ≡ (if s.handles.interface && s.life.interface_opened
              then close_interface ∷ s.history
              else s.history))
        (sym same) (ground arith)
