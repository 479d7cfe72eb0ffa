-- ===== src/Driver/Tx/Drain.antt =====
-- The drain as a whole: with its gate closed and open, and on a finite backlog.
use mathlib.Core.Option
use smsc95xx_macos.Base.{
  ℕ, zero, suc, ◌+◌, ◌≤◌, ◌<◌, ◌≡◌, ap, ◌∙◌, Bool, true, false, not, ◌&&◌, ◌||◌, is_some, incr,
  Option, some, List, [], ◌∷◌, ◌==◌, ◌⊎◌, if-cases, if-false, inl, inr, arith, Bool-cases,
}
use smsc95xx_macos.Driver.Status.{KernReturn, is_success}
use smsc95xx_macos.Driver.Kit.{
  Kit, Event, History, tx_dequeue, tx_enqueue, async_out, clear_stall_out,
}
use smsc95xx_macos.Driver.State.{Driver}
use smsc95xx_macos.Driver.Tx.{
  TxRound, stop, sent, refused, tx_loop_rest, tx_start_transfer, tx_return_packet, tx_submit_packet,
  tx_drain_round, tx_drain_loop, tx_drain_end, tx_drain_submission, tx_data_available,
}
use smsc95xx_macos.Driver.Tx.Cases.{submit_cases, round_cases, took}
use smsc95xx_macos.Driver.Tx.Loop.{
  OnSome, OnSome-at, after, goes_on, loop_idle, loop_busy, tx_drain_loop_total,
}

-- A dequeue that gave no packet.
abbrev pub saw_nothing : Event → Bool
saw_nothing (tx_dequeue n o) = n == 0 || not (is_some o)
saw_nothing _ = false

-- The latest call found nothing to take.
abbrev pub ended_empty : History → Bool
ended_empty [] = false
ended_empty (e ∷ h) = saw_nothing e

-- Of the packets that the client has queued there are finitely many left: `left` falls with each
-- one taken, and no other call raises it.
pub record Backlog (kit : Kit) (left : History → ℕ) : Type 0 where
  pub take_one :
      (n p : ℕ) (h : History)
      → kit.dequeue_tx h ≡ (n, some p)
      → (n == 0) ≡ false
      → left (tx_dequeue n (some p) ∷ h) < left h
  pub send : (b : List ℕ) (r : KernReturn) (h : History) → left (async_out b r ∷ h) ≤ left h
  pub hand_back : (p : ℕ) (r : KernReturn) (h : History) → left (tx_enqueue p r ∷ h) ≤ left h
  pub clear_stall : (h : History) → left (clear_stall_out ∷ h) ≤ left h

module _ (kit : Kit) where
  -- With the gate closed, a doorbell makes no call: nothing is taken off the queue or sent, whatever the
  -- fuel.
  pub tx_data_available-closed :
      (fuel : ℕ) (s : Driver)
      → s.tx.tx_datapath_ready ≡ false
      → OnSome
          (λ (t : Driver). (t.history ≡ s.history) × (t.tx.tx_in_flight ≡ s.tx.tx_in_flight))
          (tx_data_available kit fuel s)
  unfolding tx_data_available tx_drain_submission
  tx_data_available-closed fuel s gate = ground arith

  submit-busy :
      (p : ℕ) (s : Driver)
      → is_success (tx_submit_packet kit p s).0 ≡ true
      → (tx_submit_packet kit p s).1.tx.tx_in_flight ≡ true
  submit-busy p s =
      submit_cases kit
        (λ (r : KernReturn × Driver). is_success r.0 ≡ true → r.1.tx.tx_in_flight ≡ true) p s
        (λ ret b e h. absurd (ground (arith, e, h)))
        (λ bytes at n e k. unfold tx_start_transfer in ground arith)

  -- How a round ends: stopped by a dequeue that gave nothing, busy once it sent, or a packet refused.
  abbrev RoundEnds : TxRound → Type 0
  RoundEnds (stop s) = ended_empty s.history ≡ true
  RoundEnds (sent s) = s.tx.tx_in_flight ≡ true
  RoundEnds (refused s) = Unit

  round-ends : (s : Driver) → RoundEnds (tx_drain_round kit s)
  round-ends s =
      round_cases kit RoundEnds s (λ n o e. ground arith) (λ n e. ground arith)
        (λ n p e q0 k. submit-busy p (took n p s) k) (λ n p e q0 k. tt)

  abbrev pub Drained : Driver → Type 0
  Drained s = (s.tx.tx_in_flight ≡ true) ⊎ (ended_empty s.history ≡ true)

  loop-rest-Drained :
      (again : ℕ → Driver → Option (Driver × ℕ))
      → ((n : ℕ) (s : Driver) → OnSome (λ (r : Driver × ℕ). Drained r.0) (again n s))
      → (n : ℕ) (r : TxRound) → RoundEnds r
      → OnSome (λ (r : Driver × ℕ). Drained r.0) (tx_loop_rest again n r)
  loop-rest-Drained again next n (stop s) e = inr e
  loop-rest-Drained again next n (sent s) e = next (n + 1) s
  loop-rest-Drained again next n (refused s) e = next n s

  loop-Drained :
      (fuel n : ℕ) (s : Driver)
      → OnSome (λ (r : Driver × ℕ). Drained r.0) (tx_drain_loop kit fuel n s)
  loop-Drained zero n s = unfold tx_drain_loop in tt
  loop-Drained (suc fuel) n s = elim (Bool-cases s.tx.tx_in_flight) [
    | inl busy ↦ rw (loop_busy kit fuel n s busy) (inl busy)
    | inr idle ↦ rw (loop_idle kit fuel n s idle) (
        loop-rest-Drained (tx_drain_loop kit fuel) (loop-Drained fuel) n (tx_drain_round kit s)
          (round-ends s))
  ]

  end-Drained : (r : Driver × ℕ) → Drained r.0 → Drained (tx_drain_end r)
  end-Drained (s, n) d = if-cases Drained (s.tx.tx_in_flight && n == 0) _ _ (λ _. d) (λ _. d)

  submit-left :
      (left : History → ℕ) (p : ℕ) (s : Driver)
      → Backlog kit left
      → left (tx_submit_packet kit p s).1.history ≤ left s.history
  submit-left left p s b =
      submit_cases kit (λ (r : KernReturn × Driver). left r.1.history ≤ left s.history) p s
        (λ ret o e. omega arith)
        (λ bytes at n e k.
          unfold tx_start_transfer in
          if-cases (λ (r : KernReturn × Driver). left r.1.history ≤ left s.history)
            (is_success (kit.write_out s.history _)) _ _ (λ _. b.send _ _ _) (λ _. b.send _ _ _))

  pub return-left :
      (left : History → ℕ) (p : ℕ) (s : Driver)
      → Backlog kit left
      → left (tx_return_packet kit (some p) s).history ≤ left s.history
  unfolding tx_return_packet
  return-left left p s b = ground (arith, b.hand_back p (kit.enqueue_tx s.history p) s.history)

  pub round-left :
      (left : History → ℕ) (s : Driver)
      → Backlog kit left
      → goes_on (tx_drain_round kit s) ≡ true
      → left (after (tx_drain_round kit s)).history < left s.history
  round-left left s b =
      round_cases kit (λ r. goes_on r ≡ true → left (after r).history < left s.history) s
        (λ n o e g. absurd (cc g)) (λ n e g. absurd (cc g))
        (λ n p e q0 k g.
          omega (arith, submit-left left p (took n p s) b, b.take_one n p s.history q0 e))
        (λ n p e q0 k g.
          let t = (tx_submit_packet kit p (took n p s)).1 in
          omega (
            arith,
            return-left left p t b,
            submit-left left p (took n p s) b,
            b.take_one n p s.history q0 e,
          ))

  -- On a finite backlog, and with more fuel than packets are left, a drain whose gate is open ends,
  -- and at its end a transfer is in flight or the queue has just given nothing.
  pub tx_drain_submission-Drained :
      (left : History → ℕ) (fuel : ℕ) (s : Driver)
      → Backlog kit left
      → left s.history < fuel
      → (s.handles.tx_submit && s.handles.tx_complete) ≡ true
      → s.tx.tx_datapath_ready ≡ true
      → (t : Driver) × (tx_drain_submission kit fuel s ≡ some t) × Drained t
  unfolding tx_drain_submission
  tx_drain_submission-Drained left fuel s b enough there ready =
      let s1 = record s { tx = record s.tx { tx_drains = incr s.tx.tx_drains } } in
      let (r, e) =
        tx_drain_loop_total kit (λ t. left t.history) (λ t idle g. round-left left t b g) fuel 0 s1
          enough in
      (
        tx_drain_end r,
        if-false (not (s.handles.tx_submit && s.handles.tx_complete)) _ _ (ground arith)
            ∙ (if-false (not s.tx.tx_datapath_ready) _ _ (ground arith)
                ∙ ap (Option.map tx_drain_end) e),
        end-Drained r (OnSome-at (λ (r : Driver × ℕ). Drained r.0) r (loop-Drained fuel 0 s1) e),
      )
