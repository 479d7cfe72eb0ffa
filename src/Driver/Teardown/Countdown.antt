-- ===== src/Driver/Teardown/Countdown.antt =====
-- The countdown of the cancellations.
use smsc95xx_macos.Base.{
  ℕ, zero, suc, ◌+◌, ◌*◌, ◌≤◌, ◌<◌, ◌≡◌, ◌↔◌, refl, if◌then◌else◌, ◌==◌, ◌⊎◌, inl, inr, arith,
}
use smsc95xx_macos.Driver.State.{Handles}
use smsc95xx_macos.Driver.Teardown.{
  Teardown, cancel_count, finalize, begin_stop, Step, cancel_accepted, cancel_refused, handler_ran,
  Reachable, begun, then_step,
}

-- The counter counts the Cancels to come and the handlers to run, and the base class has been stopped,
-- and the resources released, once if there are none and not yet otherwise.
record Counts (s : Teardown) : Type 0 where
  counter : s.pending ≡ s.to_cancel + s.waiting
  few : s.pending ≤ 4
  stopped : s.stops ≡ (if s.pending == 0 then 1 else 0)
  released : s.releases ≡ s.stops

begin-Counts : (h : Handles) → Counts (begin_stop h)
unfolding begin_stop cancel_count
begin-Counts h = ground arith

finalize-Counts :
    (s : Teardown)
    → s.pending ≡ s.to_cancel + s.waiting + 1
    → s.pending ≤ 4
    → s.stops ≡ 0
    → s.releases ≡ 0
    → Counts (finalize s)
unfolding finalize
finalize-Counts s counter few stops releases = ground arith

Step-Counts : (s t : Teardown) → Step s t → Counts s → Counts t
Step-Counts _ _ (cancel_accepted s n e) c = record {
  counter = omega (arith, c.counter, e);
  few = c.few;
  stopped = c.stopped;
  released = c.released;
}
Step-Counts _ _ (cancel_refused s n e) c =
    finalize-Counts (record s { to_cancel = n }) (omega (arith, c.counter, e)) c.few
      (ground (arith, c.counter, c.stopped, e))
      (ground (arith, c.counter, c.stopped, c.released, e))
Step-Counts _ _ (handler_ran s n e) c =
    finalize-Counts (record s { waiting = n }) (omega (arith, c.counter, e)) c.few
      (ground (arith, c.counter, c.stopped, e))
      (ground (arith, c.counter, c.stopped, c.released, e))

Reachable-Counts : (h : Handles) (s : Teardown) → Reachable h s → Counts s
Reachable-Counts _ _ (begun h) = begin-Counts h
Reachable-Counts _ _ (then_step h s t r p) = Step-Counts s t p (Reachable-Counts h s r)

-- Whichever Cancels are refused, and however their handlers interleave with the Cancels and each
-- other: the base class is stopped, and the resources released, at most once, and exactly when no
-- Cancel is still to be issued and no accepted one still waits for its handler.
pub Reachable-stops_once :
    (h : Handles) (s : Teardown)
    → Reachable h s
    → (s.stops ≤ 1)
      × (s.releases ≡ s.stops)
      × ((s.stops ≡ 1) ↔ ((s.to_cancel ≡ 0) × (s.waiting ≡ 0)))
Reachable-stops_once h s r =
    let c = Reachable-Counts h s r in
    (ground (arith, c.stopped), c.released, ground (arith, c.counter, c.stopped))

zero_or_suc : (n : ℕ) → (n ≡ 0) ⊎ ((m : ℕ) × (n ≡ suc m))
zero_or_suc zero = inl refl
zero_or_suc (suc m) = inr (m, refl)

finalize-left :
    (s : Teardown) → (finalize s).to_cancel * 2 + (finalize s).waiting ≡ s.to_cancel * 2 + s.waiting
unfolding finalize
finalize-left s = ground arith

abbrev left : Teardown → ℕ
left s = s.to_cancel * 2 + s.waiting

Step-left : (s t : Teardown) → Step s t → left t < left s
Step-left _ _ (cancel_accepted s n e) = omega (arith, e)
Step-left _ _ (cancel_refused s n e) = omega (arith, e, finalize-left (record s { to_cancel = n }))
Step-left _ _ (handler_ran s n e) = omega (arith, e, finalize-left (record s { waiting = n }))

-- A teardown that has not stopped the base class can go on, and each step that it takes brings the end
-- nearer: it lowers twice the Cancels to be issued and the handlers to run.
pub Reachable-goes_on :
    (h : Handles) (s : Teardown)
    → Reachable h s
    → s.stops ≡ 0
    → ((t : Teardown) × Step s t)
      × ((t : Teardown) → Step s t → t.to_cancel * 2 + t.waiting < s.to_cancel * 2 + s.waiting)
Reachable-goes_on h s r e =
    let c = Reachable-Counts h s r in
    (
      elim (zero_or_suc s.to_cancel) [
        | inr (n, p) ↦ (_, cancel_accepted s n p)
        | inl none_left ↦ elim (zero_or_suc s.waiting) [
          | inr (n, p) ↦ (_, handler_ran s n p)
          | inl none_waits ↦ absurd (ground (arith, c.counter, c.stopped, none_left, none_waits, e))
        ]
      ],
      (λ t p. Step-left s t p),
    )
