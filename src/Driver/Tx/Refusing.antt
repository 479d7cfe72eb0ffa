-- ===== src/Driver/Tx/Refusing.antt =====
-- The drain against a stack that presents refused packets again.
use smsc95xx_macos.Base.{
  ℕ, zero, suc, ◌+◌, true, ◌≡◌, refl, ◌∙◌, sym, subst, false, Option, none, some, ◌∷◌, ◌==◌,
  if◌then◌else◌, arith,
}
use smsc95xx_macos.Driver.Status.{KernReturn, is_success}
use smsc95xx_macos.Driver.Kit.{Kit, History, tx_dequeue}
use smsc95xx_macos.Driver.State.{Driver}
use smsc95xx_macos.Driver.Tx.{
  TxRound, stop, sent, refused, tx_loop_rest, tx_reject, tx_return_packet, tx_submit_packet,
  tx_dispose, tx_drain_round, tx_drain_loop,
}
use smsc95xx_macos.Driver.Tx.Ledger.{taken, given}
use smsc95xx_macos.Driver.Tx.Cases.{took}
use smsc95xx_macos.Driver.Tx.Loop.{loop_idle, after}

module _ (kit : Kit) where
  submit-empty :
      (p : ℕ) (s : Driver)
      → kit.data_length s.history p ≡ 0
      → tx_submit_packet kit p s ≡ tx_reject KernReturn.bad_argument s
  unfolding tx_submit_packet
  submit-empty p s e = rw (e, tx_submit_packet) refl

  -- The state after `k` rounds.
  abbrev pub rounds : ℕ → Driver → Driver
  rounds zero s = s
  rounds (suc k) s = after (tx_drain_round kit (rounds k s))

  -- A round that took packet 0 once more, refused it, and handed it back.
  abbrev HandsBack : Driver → TxRound → Type 0
  HandsBack s (stop t) = ⊥
  HandsBack s (sent t) = ⊥
  HandsBack s (refused t) =
      (t.tx.tx_in_flight ≡ false)
      × (t.handles.tx_complete ≡ true)
      × (taken 0 t.history ≡ taken 0 s.history + 1)
      × (given 0 t.history ≡ given 0 s.history + 1)

  return-HandsBack :
      (s : Driver)
      → s.tx.tx_in_flight ≡ false
      → s.handles.tx_complete ≡ true
      → HandsBack s (
          refused
            (tx_return_packet kit (some 0) (tx_reject KernReturn.bad_argument (took 1 0 s)).1))
  unfolding tx_return_packet taken given
  return-HandsBack s idle there = ground (arith, idle, there)

  round-HandsBack :
      (s : Driver)
      → ((h : History) → kit.dequeue_tx h ≡ (1, some 0))
      → ((h : History) → kit.data_length h 0 ≡ 0)
      → s.tx.tx_in_flight ≡ false
      → s.handles.tx_complete ≡ true
      → HandsBack s (tx_drain_round kit s)
  unfolding tx_drain_round tx_dispose is_success
  round-HandsBack s q e idle there =
      subst
        (λ (o : ℕ × Option ℕ). HandsBack s (
          let s1 = record s { history = tx_dequeue o.0 o.1 ∷ s.history } in
          if o.0 == 0 then stop s1 else tx_dispose kit o.1 s1))
        (sym (q s.history)) (rw (submit-empty 0 (took 1 0 s) (e _)) (return-HandsBack s idle there))

  rest-none :
      (again : ℕ → Driver → Option (Driver × ℕ)) (n : ℕ) (s : Driver) (r : TxRound)
      → ((t : Driver) → t.tx.tx_in_flight ≡ false → t.handles.tx_complete ≡ true → again n t ≡ none)
      → HandsBack s r
      → tx_loop_rest again n r ≡ none
  rest-none again n s (stop t) next g = absurd g
  rest-none again n s (sent t) next g = absurd g
  rest-none again n s (refused t) next g = next t g.0 g.1

  loop-none :
      (fuel n : ℕ) (s : Driver)
      → ((h : History) → kit.dequeue_tx h ≡ (1, some 0))
      → ((h : History) → kit.data_length h 0 ≡ 0)
      → s.tx.tx_in_flight ≡ false
      → s.handles.tx_complete ≡ true
      → tx_drain_loop kit fuel n s ≡ none
  loop-none zero n s q e idle there = unfold tx_drain_loop in refl
  loop-none (suc fuel) n s q e idle there =
      loop_idle kit fuel n s idle
      ∙ rest-none (tx_drain_loop kit fuel) n s (tx_drain_round kit s)
          (λ t i c. loop-none fuel n t q e i c) (round-HandsBack s q e idle there)

  -- What one more round adds.
  after-HandsBack :
      (s : Driver) (r : TxRound)
      → HandsBack s r
      → (r ≡ refused (after r)) × HandsBack s (refused (after r))
  after-HandsBack s (stop t) g = absurd g
  after-HandsBack s (sent t) g = absurd g
  after-HandsBack s (refused t) g = (refl, g)

  rounds-back :
      (k : ℕ) (s : Driver)
      → ((h : History) → kit.dequeue_tx h ≡ (1, some 0))
      → ((h : History) → kit.data_length h 0 ≡ 0)
      → s.tx.tx_in_flight ≡ false
      → s.handles.tx_complete ≡ true
      → let t = rounds k s in
        (t.tx.tx_in_flight ≡ false)
        × (t.handles.tx_complete ≡ true)
        × (taken 0 t.history ≡ taken 0 s.history + k)
        × (given 0 t.history ≡ given 0 s.history + k)
  rounds-back zero s q e idle there = (idle, there, omega arith, omega arith)
  rounds-back (suc k) s q e idle there =
      let t = rounds k s in
      let (i, c, took_k, gave_k) = rounds-back k s q e idle there in
      let g = (after-HandsBack t (tx_drain_round kit t) (round-HandsBack t q e i c)).1 in
      (g.0, g.1, omega (arith, g.2, took_k), omega (arith, g.3, gave_k))

  -- Against a stack whose queue always holds packet 0, of length 0, with no transfer in flight and the
  -- completion queue there, the drain loop never ends, whatever the fuel: after any number `k` of its
  -- rounds the packet has been taken `k` times more and handed back `k` times more, and the next round
  -- refuses it again.
  pub tx_drain_loop-refusing :
      (fuel n k : ℕ) (s : Driver)
      → ((h : History) → kit.dequeue_tx h ≡ (1, some 0))
      → ((h : History) → kit.data_length h 0 ≡ 0)
      → s.tx.tx_in_flight ≡ false
      → s.handles.tx_complete ≡ true
      → (tx_drain_loop kit fuel n s ≡ none)
        × (tx_drain_round kit (rounds k s) ≡ refused (rounds (suc k) s))
        × (taken 0 (rounds k s).history ≡ taken 0 s.history + k)
        × (given 0 (rounds k s).history ≡ given 0 s.history + k)
  tx_drain_loop-refusing fuel n k s q e idle there =
      let t = rounds k s in
      let (i, c, took_k, gave_k) = rounds-back k s q e idle there in
      (
        loop-none fuel n s q e idle there,
        (after-HandsBack t (tx_drain_round kit t) (round-HandsBack t q e i c)).0,
        took_k,
        gave_k,
      )
