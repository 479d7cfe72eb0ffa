-- ===== src/Driver/Tx/Accounting.antt =====
-- The functions of the transmit path and the books.
use smsc95xx_macos.Base.{
  ℕ, ◌≡◌, refl, sym, ap, ◌∙◌, ◌∷◌, true, false, Option, none, some, List, ◌++◌, ◌⊎◌, inl, inr, ◌==◌,
  if◌then◌else◌, arith,
}
use smsc95xx_macos.Proto.Tx.Header.{header}
use smsc95xx_macos.Driver.Status.{KernReturn, is_success, is_success-success}
use smsc95xx_macos.Driver.Kit.{Kit, read_run, tx_dequeue}
use smsc95xx_macos.Driver.State.{Driver}
use smsc95xx_macos.Driver.Tx.{tx_return_packet, tx_start_transfer, tx_submit_packet, tx_drain_round}
use smsc95xx_macos.Driver.Tx.Cases.{with_bytes, submit_cases, took, round_cases}
use smsc95xx_macos.Driver.Tx.Loop.{after}
use smsc95xx_macos.Driver.Tx.Ledger.{
  taken, given, Ledger, Once, TxInv, SameRest, SameRest-trans, other_calls,
}
use smsc95xx_macos.Driver.Tx.Mailbox.{
  vacant, holding, on_wire, take_in, start, hand_back, advance, replay, place,
}

module _ (kit : Kit) where
  -- Handing back what is owed settles the account.
  pub tx_return_packet-Ledger :
      (p : Option ℕ) (s : Driver) → Ledger p s → Ledger none (tx_return_packet kit p s)
  unfolding tx_return_packet
  tx_return_packet-Ledger none s l = l
  tx_return_packet-Ledger (some p) s l = ground arith

  pub tx_return_packet-Once :
      (p : Option ℕ) (q : ℕ) (s : Driver)
      → s.handles.tx_complete ≡ true
      → Once p q s
      → Once none q (tx_return_packet kit p s)
  unfolding tx_return_packet taken given
  tx_return_packet-Once none q s c o = o
  tx_return_packet-Once (some p) q s c o = ground arith

  -- A submitted packet is in flight; a refused one is still owed.
  abbrev Settles : ℕ → KernReturn × Driver → Type 0
  Settles p (ret, s) = Ledger (if is_success ret then none else some p) s

  tx_submit_packet-Ledger :
      (p : ℕ) (s : Driver)
      → s.tx.tx_in_flight ≡ false
      → Ledger (some p) s
      → Settles p (tx_submit_packet kit p s)
  tx_submit_packet-Ledger p s idle l =
      submit_cases kit (Settles p) p s (λ ret b e. ground arith)
        (λ bytes at n e readable. unfold tx_start_transfer in ground (arith, is_success-success))

  abbrev SettlesOnce : ℕ → ℕ → KernReturn × Driver → Type 0
  SettlesOnce p q (ret, s) = Once (if is_success ret then none else some p) q s

  tx_submit_packet-Once :
      (p q : ℕ) (s : Driver)
      → s.tx.tx_packet ≡ none
      → Once (some p) q s
      → SettlesOnce p q (tx_submit_packet kit p s)
  tx_submit_packet-Once p q s idle o =
      submit_cases kit (SettlesOnce p q) p s (λ ret b e. ground arith)
        (λ bytes at n e readable.
          unfold tx_start_transfer taken given in ground (arith, is_success-success))

  tx_submit_packet-rest : (p : ℕ) (s : Driver) → SameRest s (tx_submit_packet kit p s).1
  unfolding other_calls
  tx_submit_packet-rest p s =
      submit_cases kit (λ r. SameRest s r.1) p s (λ ret b e. (refl, refl, refl, refl))
        (λ bytes at n e readable. unfold tx_start_transfer in ground arith)

  -- The place of the packet after it was submitted: on the wire, or still held.
  abbrev Submits : ℕ → KernReturn × Driver → Type 0
  Submits p (ret, s) =
      (replay s.history ≡ (if is_success ret then on_wire p else holding p))
      × (s.tx.tx_packet ≡ (if is_success ret then some p else none))

  tx_submit_packet-Submits :
      (p : ℕ) (s : Driver)
      → s.tx.tx_packet ≡ none
      → replay s.history ≡ holding p
      → Submits p (tx_submit_packet kit p s)
  tx_submit_packet-Submits p s idle h =
      submit_cases kit (Submits p) p s (λ ret b e. rw e (h, idle))
        (λ bytes at n e readable. started (header n ++ read_run (kit.memory s.history) at n) _)
    where
      started :
          (transfer : List ℕ) (b : Option (List ℕ))
          → Submits p (tx_start_transfer kit p transfer (with_bytes b s))
      started transfer b =
          unfold tx_start_transfer replay advance start in ground (arith, is_success-success, h)

  -- The packet is handed back from where it is.
  pub tx_return_packet-vacant :
      (p : ℕ) (s : Driver)
      → s.handles.tx_complete ≡ true
      → (replay s.history ≡ holding p) ⊎ (replay s.history ≡ on_wire p)
      → replay (tx_return_packet kit (some p) s).history ≡ vacant
  unfolding tx_return_packet replay advance hand_back
  tx_return_packet-vacant p s c (inl h) = ground (arith, h)
  tx_return_packet-vacant p s c (inr h) = ground (arith, h)

  pub tx_return_packet-held :
      (o : Option ℕ) (s : Driver) → (tx_return_packet kit o s).tx.tx_packet ≡ s.tx.tx_packet
  unfolding tx_return_packet
  tx_return_packet-held none s = refl
  tx_return_packet-held (some p) s = ground arith

  pub tx_return_packet-fields :
      (p : ℕ) (s : Driver)
      → ((tx_return_packet kit (some p) s).tx.tx_in_flight ≡ s.tx.tx_in_flight)
        × ((tx_return_packet kit (some p) s).tx.tx_bytes ≡ s.tx.tx_bytes)
        × ((tx_return_packet kit (some p) s).tx.tx_datapath_ready ≡ s.tx.tx_datapath_ready)
  unfolding tx_return_packet
  tx_return_packet-fields p s = ground arith

  pub tx_return_packet-rest : (p : Option ℕ) (s : Driver) → SameRest s (tx_return_packet kit p s)
  unfolding tx_return_packet other_calls
  tx_return_packet-rest none s = (refl, refl, refl, refl)
  tx_return_packet-rest (some p) s = ground arith

  pub tx_drain_round-rest : (s : Driver) → SameRest s (after (tx_drain_round kit s))
  unfolding other_calls
  tx_drain_round-rest s =
      round_cases kit (λ r. SameRest s (after r)) s (λ n o e. (refl, refl, refl, refl))
        (λ n e. (refl, refl, refl, refl)) (λ n p e q0 k. tx_submit_packet-rest p (took n p s))
        (λ n p e q0 k.
          let t = (tx_submit_packet kit p (took n p s)).1 in
          SameRest-trans s t (tx_return_packet kit (some p) t)
            (tx_submit_packet-rest p (took n p s)) (tx_return_packet-rest (some p) t))

  -- An empty dequeue takes nothing.
  passed :
      (n : ℕ) (o : Option ℕ) (s : Driver)
      → (n == 0) ≡ true
      → replay (tx_dequeue n o ∷ s.history) ≡ replay s.history
  unfolding replay advance
  passed n none s e = refl
  passed n (some p) s e = rw e refl

  -- The drain runs with the completion queue there.
  pub tx_drain_round-TxInv :
      (s : Driver)
      → s.tx.tx_in_flight ≡ false
      → s.handles.tx_complete ≡ true
      → TxInv s
      → TxInv (after (tx_drain_round kit s))
  tx_drain_round-TxInv s idle c v =
      round_cases kit (λ r. TxInv (after r)) s
        (λ n o e. record {
          ledger = record { flag = v.ledger.flag; balance = v.ledger.balance };
          queue = v.queue;
          once = λ q. unfold taken given in rw e (omega (arith, v.once q));
          mailbox = passed n o s e ∙ v.mailbox;
        })
        (λ n e. record {
          ledger = record { flag = v.ledger.flag; balance = v.ledger.balance };
          queue = v.queue;
          once = λ q. unfold taken given in rw e (omega (arith, v.once q));
          mailbox = unfold replay advance in v.mailbox;
        })
        (λ n p e q0 k. record {
          ledger = rw k at (tx_submit_packet-Ledger p (took n p s) idle (took-Ledger n p));
          queue = λ _. (rw (tx_submit_packet-rest p (took n p s)).0 c);
          once =
              λ q. rw k at (tx_submit_packet-Once p q (took n p s) none_held (took-Once n p q e));
          mailbox = let o = submitted n p e in rw (o.0, o.1, k) refl;
        })
        (λ n p e q0 k.
          let t = (tx_submit_packet kit p (took n p s)).1 in
          let there : t.handles.tx_complete ≡ true =
            rw (tx_submit_packet-rest p (took n p s)).0 c in
          record {
            ledger =
                tx_return_packet-Ledger (some p) t
                  (rw k at (tx_submit_packet-Ledger p (took n p s) idle (took-Ledger n p)));
            queue = λ _. rw (tx_return_packet-rest (some p) t).0 there;
            once = λ q.
                tx_return_packet-Once (some p) q t there
                  (rw k at (tx_submit_packet-Once p q (took n p s) none_held (took-Once n p q e)));
            mailbox =
                let o = submitted n p e in
                tx_return_packet-vacant p t there (inl (rw k at o.0))
                ∙ sym (ap place (tx_return_packet-held (some p) t ∙ rw k at o.1));
          })
    where
      none_held : s.tx.tx_packet ≡ none
      none_held = ground (arith, v.ledger.flag)

      took-Ledger : (n p : ℕ) → Ledger (some p) (took n p s)
      took-Ledger n p = ground (arith, v.ledger.flag, v.ledger.balance)

      took-Once : (n p q : ℕ) → (n == 0) ≡ false → Once (some p) q (took n p s)
      took-Once n p q e = unfold taken given in rw e (omega (arith, v.once q))

      submitted : (n p : ℕ) → (n == 0) ≡ false → Submits p (tx_submit_packet kit p (took n p s))
      submitted n p e =
          tx_submit_packet-Submits p (took n p s) none_held
            (unfold replay advance take_in in rw (e, v.mailbox, none_held) refl)
