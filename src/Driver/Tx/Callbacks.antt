-- ===== src/Driver/Tx/Callbacks.antt =====
-- The transmit callbacks and the books.
use smsc95xx_macos.Base.{
  ℕ, ◌≡◌, ◌∙◌, refl, ap, sym, incr, ◌==◌, true, false, not, ◌&&◌, Option, none, some, inl, inr,
  arith, Bool-cases, if-cases, is_some,
}
use smsc95xx_macos.Driver.Status.{KernReturn}
use smsc95xx_macos.Driver.Kit.{Kit}
use smsc95xx_macos.Driver.State.{Driver, Transmit}
use smsc95xx_macos.Driver.Tx.{
  tx_return_packet, tx_drain_round, tx_drain_loop, tx_drain_end, tx_drain_submission,
  tx_data_available, tx_account_status, tx_completed,
}
use smsc95xx_macos.Driver.Tx.Ledger.{
  held, count_of, Ledger, Once, TxInv, SameRest, SameRest-trans, taken, given, other_calls,
}
use smsc95xx_macos.Driver.Tx.Mailbox.{vacant, advance, replay, place}
use smsc95xx_macos.Driver.Tx.Loop.{OnSome, OnSome-map, after, tx_drain_loop_inv}
use smsc95xx_macos.Driver.Tx.Accounting.{
  tx_return_packet-Ledger, tx_return_packet-Once, tx_return_packet-rest, tx_return_packet-held,
  tx_return_packet-vacant, tx_drain_round-TxInv, tx_drain_round-rest,
}

-- The books of `t` are in order, and the rest of the driver is as in `s`.
pub record Keeps (s t : Driver) : Type 0 where
  pub books : TxInv t
  pub rest : SameRest s t

-- A change of the other fields of the transmit state keeps the books.
recount :
    (s : Driver) (x : Transmit)
    → x.tx_in_flight ≡ s.tx.tx_in_flight
    → x.tx_packet ≡ s.tx.tx_packet
    → x.tx_dequeued ≡ s.tx.tx_dequeued
    → x.tx_returned ≡ s.tx.tx_returned
    → x.tx_lost ≡ s.tx.tx_lost
    → TxInv s
    → TxInv (record s { tx = x })
recount s x a b c d e v = record {
  ledger = record {
    flag = a ∙ (v.ledger.flag ∙ ap is_some (sym b));
    balance = omega (arith, c, d, e, v.ledger.balance, ap count_of b);
  };
  queue = λ h. v.queue (ap is_some (sym b) ∙ h);
  once = λ p. omega (arith, v.once p, ap (held p) b);
  mailbox = v.mailbox ∙ sym (ap place b);
}

module _ (kit : Kit) where
  loop-Keeps :
      (fuel : ℕ) (s : Driver)
      → s.handles.tx_complete ≡ true
      → TxInv s
      → OnSome (λ r. Keeps s r.0) (tx_drain_loop kit fuel 0 s)
  loop-Keeps fuel s c v =
      tx_drain_loop_inv kit (Keeps s)
        (λ t idle k. record {
          books = tx_drain_round-TxInv kit t idle (rw k.rest.0 c) k.books;
          rest =
              SameRest-trans s t (after (tx_drain_round kit t)) k.rest (tx_drain_round-rest kit t);
        })
        fuel 0 s (record { books = v; rest = (refl, refl, refl, refl) })

  end-Keeps : (s : Driver) (r : Driver × ℕ) → Keeps s r.0 → Keeps s (tx_drain_end r)
  end-Keeps s (t, n) k = elim (Bool-cases (t.tx.tx_in_flight && n == 0)) [
    | inl e ↦ rw e (record {
      books =
          recount t (record t.tx { tx_deferred = incr t.tx.tx_deferred }) refl refl refl refl refl
            k.books;
      rest = k.rest;
    })
    | inr e ↦ rw e k
  ]

  pub tx_drain_submission-Keeps :
      (fuel : ℕ) (s : Driver) → TxInv s → OnSome (Keeps s) (tx_drain_submission kit fuel s)
  unfolding tx_drain_submission
  tx_drain_submission-Keeps fuel s v =
      let s1 = record s { tx = record s.tx { tx_drains = incr s.tx.tx_drains } } in
      let v1 : TxInv s1 = recount s s1.tx refl refl refl refl refl v in
      let k : Keeps s s1 = record { books = v1; rest = (refl, refl, refl, refl) } in
      let gone = not (s.handles.tx_submit && s.handles.tx_complete) in
      if-cases (OnSome (Keeps s)) gone _ _ (λ e. k)
        (λ e.
          if-cases (OnSome (Keeps s)) (not s.tx.tx_datapath_ready) _ _ (λ d. k)
            (λ d.
              OnSome-map (λ r. Keeps s1 r.0) (Keeps s) tx_drain_end
                (λ r h. end-Keeps s r (record { books = h.books; rest = h.rest }))
                (tx_drain_loop kit fuel 0 s1) (loop-Keeps fuel s1 (ground arith) v1)))

  -- If the transmit books are in order before a doorbell, they are so when it has drained the queue:
  -- packets dequeued are packets returned, lost and in flight, modulo 2^64, each packet was handed back
  -- as often as taken but for the one in flight, and the rest of the driver's state is as before.
  pub tx_data_available-Keeps :
      (fuel : ℕ) (s : Driver) → TxInv s → OnSome (Keeps s) (tx_data_available kit fuel s)
  unfolding tx_data_available
  tx_data_available-Keeps fuel s v =
      let s1 = record s {
        tx = record s.tx { tx_doorbells = incr s.tx.tx_doorbells; in_tx_data_available = true };
      } in
      let v1 : TxInv s1 = recount s s1.tx refl refl refl refl refl v in
      let leave = λ (t : Driver). record t { tx = record t.tx { in_tx_data_available = false } } in
      let left : (t : Driver) → Keeps s1 t → Keeps s (leave t) = λ t k. record {
        books = recount t (leave t).tx refl refl refl refl refl k.books;
        rest = k.rest;
      } in
      elim (Bool-cases (s.handles.tx_submit && s.handles.tx_complete)) [
        | inr e ↦ rw e (left s1 (record { books = v1; rest = (refl, refl, refl, refl) }))
        | inl e ↦ rw e (
            OnSome-map (Keeps s1) (Keeps s) leave left (tx_drain_submission kit fuel s1)
              (tx_drain_submission-Keeps fuel s1 v1))
      ]

  account-Ledger :
      (o : Option ℕ) (status : KernReturn) (count : ℕ) (s : Driver)
      → Ledger o s
      → Ledger o (tx_account_status status count s)
  unfolding tx_account_status
  account-Ledger o status count s l = ground (arith, l.flag, l.balance)

  account-Once :
      (o : Option ℕ) (p : ℕ) (status : KernReturn) (count : ℕ) (s : Driver)
      → Once o p s
      → Once o p (tx_account_status status count s)
  unfolding tx_account_status taken given
  account-Once o p status count s h = ground arith

  account-rest :
      (status : KernReturn) (count : ℕ) (s : Driver) → SameRest s (tx_account_status status count s)
  unfolding tx_account_status other_calls
  account-rest status count s = ground arith

  account-held :
      (status : KernReturn) (count : ℕ) (s : Driver)
      → (tx_account_status status count s).tx.tx_packet ≡ s.tx.tx_packet
  unfolding tx_account_status
  account-held status count s = ground arith

  account-replay :
      (status : KernReturn) (count : ℕ) (s : Driver)
      → replay (tx_account_status status count s).history ≡ replay s.history
  unfolding tx_account_status replay advance
  account-replay status count s = ground arith

  -- A packet on the wire, or none, is handed back.
  return-vacant :
      (o : Option ℕ) (s : Driver)
      → (is_some o ≡ true → s.handles.tx_complete ≡ true)
      → replay s.history ≡ place o
      → replay (tx_return_packet kit o s).history ≡ vacant
  return-vacant none s c h = unfold tx_return_packet in h
  return-vacant (some p) s c h = tx_return_packet-vacant kit p s (c refl) (inr h)

  return-Once :
      (o : Option ℕ) (q : ℕ) (s : Driver)
      → (is_some o ≡ true → s.handles.tx_complete ≡ true)
      → Once o q s
      → Once none q (tx_return_packet kit o s)
  return-Once none q s c h = unfold tx_return_packet in h
  return-Once (some p) q s c h = tx_return_packet-Once kit (some p) q s (c refl) h

  -- With the packet of the transfer owed, the books of a completion are settled before the drain.
  settled :
      (status : KernReturn) (count : ℕ) (s : Driver) (x : Transmit)
      → TxInv s
      → x.tx_in_flight ≡ false
      → x.tx_packet ≡ none
      → x.tx_dequeued ≡ s.tx.tx_dequeued
      → x.tx_returned ≡ s.tx.tx_returned
      → x.tx_lost ≡ s.tx.tx_lost
      → Keeps s (
          tx_return_packet kit s.tx.tx_packet
            (tx_account_status status count (record s { tx = x })))
  settled status count s x v a b c d e = record {
    books = record {
      ledger = done;
      queue = λ h. absurd (ground (arith, h, none_left));
      once = λ p.
          return-Once s.tx.tx_packet p t there (
            account-Once s.tx.tx_packet p status count s1 (omega (arith, v.once p, ap (held p) b)));
      mailbox =
          return-vacant s.tx.tx_packet t there (account-replay status count s1 ∙ v.mailbox)
          ∙ sym (ap place none_left);
    };
    rest =
        SameRest-trans s t (tx_return_packet kit s.tx.tx_packet t) (account-rest status count s1)
          (tx_return_packet-rest kit s.tx.tx_packet t);
  }
    where
      s1 : Driver
      s1 = record s { tx = x }

      t : Driver
      t = tx_account_status status count s1

      none_left : (tx_return_packet kit s.tx.tx_packet t).tx.tx_packet ≡ none
      none_left = tx_return_packet-held kit s.tx.tx_packet t ∙ account-held status count s1 ∙ b

      there : is_some s.tx.tx_packet ≡ true → t.handles.tx_complete ≡ true
      there h = rw (account-rest status count s1).0 (v.queue h)

      open1 : Ledger s.tx.tx_packet s1
      open1 = record {
        flag = a ∙ sym (ap is_some b);
        balance = omega (arith, c, d, e, v.ledger.balance, ap count_of b);
      }

      done : Ledger none (tx_return_packet kit s.tx.tx_packet t)
      done =
          tx_return_packet-Ledger kit s.tx.tx_packet t
            (account-Ledger s.tx.tx_packet status count s1 open1)

  -- If the transmit books are in order before a bulk OUT completion of any status, with a packet in
  -- flight or none, they are so when it has drained the queue: packets dequeued are packets returned,
  -- lost and in flight, modulo 2^64, each packet was handed back as often as taken but for the one in
  -- flight, and the rest of the driver's state is as before.
  pub tx_completed-Keeps :
      (fuel : ℕ) (status : KernReturn) (count : ℕ) (s : Driver)
      → TxInv s
      → OnSome (Keeps s) (tx_completed kit fuel status count s)
  unfolding tx_completed
  tx_completed-Keeps fuel status count s v =
      let x = record s.tx {
        tx_packet = none;
        tx_in_flight = false;
        tx_completions = incr s.tx.tx_completions;
        in_tx_complete = true;
      } in
      let k = settled status count s x v refl refl refl refl refl in
      let t =
        tx_return_packet kit s.tx.tx_packet
          (tx_account_status status count (record s { tx = x })) in
      OnSome-map (Keeps t) (Keeps s) (λ u. record u { tx = record u.tx { in_tx_complete = false } })
        (λ u h. record {
          books =
              recount u (record u.tx { in_tx_complete = false }) refl refl refl refl refl h.books;
          rest = SameRest-trans s t u k.rest h.rest;
        })
        (tx_drain_submission kit fuel t) (tx_drain_submission-Keeps fuel t k.books)
