-- ===== src/Driver/Tx/Ledger.antt =====
-- The books of the transmit path: how often each packet was taken off the submission queue and handed
-- back, by the history of calls, and the counters against the packet in flight.
use smsc95xx_macos.Base.{
  ℕ, ◌+◌, ◌≡◌, ◌∙◌, true, Option, none, some, [], ◌∷◌, ◌==◌, if◌then◌else◌, is_some, u64,
}
use smsc95xx_macos.Driver.Kit.{Event, History, tx_dequeue, tx_enqueue, async_out, clear_stall_out}
use smsc95xx_macos.Driver.State.{Driver}
use smsc95xx_macos.Driver.Tx.Mailbox.{replay, place}

-- 1 where the packet is `p`.
abbrev pub held : ℕ → Option ℕ → ℕ
held p none = 0
held p (some q) = if q == p then 1 else 0

abbrev pub count_of : Option ℕ → ℕ
count_of none = 0
count_of (some q) = 1

-- How often one event takes `p` off the submission queue, and hands it to the completion queue.
abbrev pub takes : ℕ → Event → ℕ
takes p (tx_dequeue n q) = if n == 0 then 0 else held p q
takes p _ = 0

abbrev pub gives : ℕ → Event → ℕ
gives p (tx_enqueue q r) = if q == p then 1 else 0
gives p _ = 0

unfoldable pub taken : ℕ → History → ℕ
taken p [] = 0
taken p (e ∷ h) = takes p e + taken p h

unfoldable pub given : ℕ → History → ℕ
given p [] = 0
given p (e ∷ h) = gives p e + given p h

-- The calls that only the transmit path makes, and all others.
unfoldable pub transmit_calls : History → History
transmit_calls [] = []
transmit_calls (tx_dequeue n q ∷ h) = tx_dequeue n q ∷ transmit_calls h
transmit_calls (tx_enqueue q r ∷ h) = tx_enqueue q r ∷ transmit_calls h
transmit_calls (async_out b r ∷ h) = async_out b r ∷ transmit_calls h
transmit_calls (clear_stall_out ∷ h) = clear_stall_out ∷ transmit_calls h
transmit_calls (e ∷ h) = transmit_calls h

unfoldable pub other_calls : History → History
other_calls [] = []
other_calls (tx_dequeue n q ∷ h) = other_calls h
other_calls (tx_enqueue q r ∷ h) = other_calls h
other_calls (async_out b r ∷ h) = other_calls h
other_calls (clear_stall_out ∷ h) = other_calls h
other_calls (e ∷ h) = e ∷ other_calls h

-- The flag tells whether a packet is recorded, a recorded packet has a completion queue to go to, and
-- packets taken are packets returned, lost, in flight, or owed by the running function.
pub record Ledger (owed : Option ℕ) (s : Driver) : Type 0 where
  pub flag : s.tx.tx_in_flight ≡ is_some s.tx.tx_packet
  pub balance :
      s.tx.tx_dequeued
      ≡ u64 (s.tx.tx_returned + s.tx.tx_lost + count_of s.tx.tx_packet + count_of owed)

-- `p` was handed back each time it was taken, but for the one in flight or owed.
abbrev pub Once : Option ℕ → ℕ → Driver → Type 0
Once owed p s = taken p s.history ≡ given p s.history + held p s.tx.tx_packet + held p owed

-- The books between two callbacks: nothing is owed, and a packet in flight has a completion queue to
-- go back to.
pub record TxInv (s : Driver) : Type 0 where
  pub ledger : Ledger none s
  pub queue : is_some s.tx.tx_packet ≡ true → s.handles.tx_complete ≡ true
  pub once : (p : ℕ) → Once none p s
  pub mailbox : replay s.history ≡ place s.tx.tx_packet

-- What the transmit path leaves alone: the rest of the state, and every call that is not its own.
abbrev pub SameRest : Driver → Driver → Type 0
SameRest s t =
    (t.handles ≡ s.handles)
    × (t.rx ≡ s.rx)
    × (t.life ≡ s.life)
    × (other_calls t.history ≡ other_calls s.history)

pub SameRest-trans : (s t u : Driver) → SameRest s t → SameRest t u → SameRest s u
SameRest-trans s t u a b = (b.0 ∙ a.0, b.1 ∙ a.1, b.2 ∙ a.2, b.3 ∙ a.3)
