-- ===== src/Driver/Tx/Concluding.antt =====
-- What a bulk OUT completion comes to: the packet of the transfer is back, and the queue is drained.
use mathlib.Core.Option
use smsc95xx_macos.Base.{
  ℕ, ◌+◌, ◌≤◌, ◌<◌, ◌≡◌, ◌∙◌, refl, sym, ap, Bool, true, false, not, ◌&&◌, is_some, incr, Option,
  none, some, ◌==◌, ◌⊎◌, inl, inr, if-cases, Bool-cases, arith,
}
use smsc95xx_macos.Driver.Status.{KernReturn, is_success}
use smsc95xx_macos.Driver.Kit.{Kit, History}
use smsc95xx_macos.Driver.State.{Driver, Handles}
use smsc95xx_macos.Driver.Tx.{
  tx_account_status, tx_return_packet, tx_start_transfer, tx_submit_packet, tx_drain_round,
  tx_drain_end, tx_drain_submission, tx_completed,
}
use smsc95xx_macos.Driver.Tx.Ledger.{given, held}
use smsc95xx_macos.Driver.Tx.Cases.{submit_cases, round_cases, took}
use smsc95xx_macos.Driver.Tx.Loop.{OnSome, OnSome-map, OnSome-at, after, tx_drain_loop_inv}
use smsc95xx_macos.Driver.Tx.Drain.{Backlog, Drained, tx_drain_submission-Drained}
use smsc95xx_macos.Driver.Tx.Ending.{drain-Total, account-left, settle-left}

-- Both queues are there, and the gate is open.
abbrev pub can_drain : Driver → Bool
can_drain s = s.handles.tx_submit && s.handles.tx_complete && s.tx.tx_datapath_ready

-- The packet that was in flight was handed back, once more than before, and no other one less often;
-- and a drain that could run left a transfer in flight, or a queue that had just given nothing.
pub record Concluded (kit : Kit) (s t : Driver) : Type 0 where
  pub handed_back : (p : ℕ) → given p s.history + held p s.tx.tx_packet ≤ given p t.history
  pub drained : Drained kit t ⊎ (can_drain s ≡ false)

module _ (kit : Kit) where
  account-given :
      (p : ℕ) (status : KernReturn) (count : ℕ) (s : Driver)
      → (given p (tx_account_status status count s).history ≡ given p s.history)
        × ((tx_account_status status count s).handles ≡ s.handles)
        × ((tx_account_status status count s).tx.tx_datapath_ready ≡ s.tx.tx_datapath_ready)
  unfolding tx_account_status given
  account-given p status count s = ground arith

  return-given :
      (p : ℕ) (o : Option ℕ) (s : Driver)
      → (is_some o ≡ true → s.handles.tx_complete ≡ true)
      → (given p (tx_return_packet kit o s).history ≡ given p s.history + held p o)
        × ((tx_return_packet kit o s).handles ≡ s.handles)
        × ((tx_return_packet kit o s).tx.tx_datapath_ready ≡ s.tx.tx_datapath_ready)
  unfolding tx_return_packet given
  return-given p none s there = (omega arith, refl, refl)
  return-given p (some q) s there = let c = there refl in ground (arith, c)

  return-more :
      (p q : ℕ) (s : Driver) → given p s.history ≤ given p (tx_return_packet kit (some q) s).history
  unfolding tx_return_packet given
  return-more p q s = ground arith

  submit-given :
      (p q : ℕ) (s : Driver) → given p (tx_submit_packet kit q s).1.history ≡ given p s.history
  unfolding given
  submit-given p q s =
      submit_cases kit (λ (r : KernReturn × Driver). given p r.1.history ≡ given p s.history) q s
        (λ ret o e. refl)
        (λ bytes at n e k.
          unfold tx_start_transfer in
          if-cases (λ (r : KernReturn × Driver). given p r.1.history ≡ given p s.history)
            (is_success (kit.write_out s.history _)) _ _ (λ _. omega arith) (λ _. omega arith))

  -- A round takes nothing back.
  round-given :
      (p : ℕ) (s : Driver) → given p s.history ≤ given p (after (tx_drain_round kit s)).history
  unfolding given
  round-given p s =
      round_cases kit (λ r. given p s.history ≤ given p (after r).history) s (λ n o e. omega arith)
        (λ n e. omega arith) (λ n q e q0 k. omega (arith, submit-given p q (took n q s)))
        (λ n q e q0 k.
          let t = (tx_submit_packet kit q (took n q s)).1 in
          omega (arith, submit-given p q (took n q s), return-more p q t))

  drain-given :
      (p fuel : ℕ) (s : Driver)
      → OnSome
          (λ (t : Driver). given p s.history ≤ given p t.history)
          (tx_drain_submission kit fuel s)
  unfolding tx_drain_submission
  drain-given p fuel s =
      let I = λ (t : Driver). given p s.history ≤ given p t.history in
      if-cases (OnSome I) (not (s.handles.tx_submit && s.handles.tx_complete)) _ _
        (λ _. omega arith)
        (λ _.
          if-cases (OnSome I) (not s.tx.tx_datapath_ready) _ _ (λ _. omega arith)
            (λ _.
              OnSome-map (λ r. I r.0) I tx_drain_end
                (λ r h. if-cases I (r.0.tx.tx_in_flight && r.1 == 0) _ _ (λ _. h) (λ _. h)) _
                (tx_drain_loop_inv kit I (λ t idle h. omega (arith, h, round-given p t)) fuel 0 _
                  (omega arith))))

  -- The drain at the end of a completion ends, and has drained the queue if it could run.
  drain-ends :
      (left : History → ℕ) (fuel : ℕ) (s : Driver)
      → Backlog kit left
      → left s.history < fuel
      → (t : Driver) × (tx_drain_submission kit fuel s ≡ some t)
        × (Drained kit t ⊎ (can_drain s ≡ false))
  drain-ends left fuel s b enough = elim (Bool-cases (can_drain s)) [
    | inl ready ↦
        let (t, e, d) =
          tx_drain_submission-Drained kit left fuel s b enough (ground (arith, ready))
            (ground (arith, ready)) in
        (t, e, inl d)
    | inr shut ↦ let (t, e) = drain-Total kit left fuel s b enough in (t, e, inr shut)
  ]

  -- On a finite backlog, and with more fuel than packets are left, a bulk OUT completion of any status
  -- ends, whatever the environment answers, if a packet in flight has a completion queue to go to. That
  -- packet has then been handed back, and if both queues were there and the gate was open, a transfer
  -- is in flight or the submission queue has just given nothing.
  pub tx_completed-Concluded :
      (left : History → ℕ) (fuel : ℕ) (status : KernReturn) (count : ℕ) (s : Driver)
      → Backlog kit left
      → left s.history < fuel
      → (is_some s.tx.tx_packet ≡ true → s.handles.tx_complete ≡ true)
      → (t : Driver) × (tx_completed kit fuel status count s ≡ some t) × Concluded kit s t
  unfolding tx_completed
  tx_completed-Concluded left fuel status count s b enough there =
      let s1 = record s {
        tx = record s.tx {
          tx_packet = none;
          tx_in_flight = false;
          tx_completions = incr s.tx.tx_completions;
          in_tx_complete = true;
        };
      } in
      let leave = λ (t : Driver). record t { tx = record t.tx { in_tx_complete = false } } in
      let s2 = tx_account_status status count s1 in
      let s3 = tx_return_packet kit s.tx.tx_packet s2 in
      let a = λ (p : ℕ). account-given p status count s1 in
      let queue = λ (h : is_some s.tx.tx_packet ≡ true).
        ap (λ (k : Handles). k.tx_complete) (a 0).1 ∙ there h in
      let r = λ (p : ℕ). return-given p s.tx.tx_packet s2 queue in
      let (t, e, d) = drain-ends left fuel s3 b (
        omega (
          arith,
          enough,
          settle-left kit left s.tx.tx_packet s2 b,
          account-left kit left status count s1 b,
        )) in
      let same : can_drain s3 ≡ can_drain s = ground (arith, (r 0).1, (r 0).2, (a 0).1, (a 0).2) in
      (
        leave t,
        ap (Option.map leave) e,
        record {
          handed_back = λ p. omega (
            arith,
            (a p).0,
            (r p).0,
            OnSome-at (λ (u : Driver). given p s3.history ≤ given p u.history) t
                (drain-given p fuel s3) e,
          );
          drained = elim d [ inl done ↦ inl done | inr shut ↦ inr (sym same ∙ shut) ];
        },
      )
