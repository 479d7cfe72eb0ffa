-- ===== src/Driver/Sides.antt =====
-- The history of calls in two parts: those that only the transmit path makes, and all others. What
-- the books of one path count does not depend on the other part.
use smsc95xx_macos.Base.{ℕ, ◌≡◌, refl, ap, ◌⊎◌, inl, inr, [], ◌∷◌, arith}
use smsc95xx_macos.Driver.Kit.{
  Event, History, tx_dequeue, tx_enqueue, async_out, clear_stall_out, async_in, rx_dequeue,
  rx_enqueue, pool_allocate, pool_deallocate, packet_write, set_length, wake_at, clear_stall_in,
  abort_in, abort_out, queue_enable, super_enable, report_link, open_interface, close_interface,
  super_stop,
}
use smsc95xx_macos.Driver.Tx.Ledger.{takes, gives, taken, given, transmit_calls, other_calls}
use smsc95xx_macos.Driver.Tx.Mailbox.{Mailbox, advance, replay}
use smsc95xx_macos.Driver.Rx.Books.{acquires, disposes, acquired, disposed}
use smsc95xx_macos.Driver.Rx.Beside.{accepts, accepted}

-- A call of the transmit path, which the receive path's books do not count.
abbrev IsOwn : Event → Type 0
IsOwn e =
    ((h : History) → transmit_calls (e ∷ h) ≡ e ∷ transmit_calls h)
    × ((h : History) → other_calls (e ∷ h) ≡ other_calls h)
    × ((p : ℕ) → acquires p e ≡ 0)
    × ((p : ℕ) → disposes p e ≡ 0)
    × (accepts e ≡ 0)

-- Any other call, which the transmit path's books do not count.
abbrev IsOther : Event → Type 0
IsOther e =
    ((h : History) → transmit_calls (e ∷ h) ≡ transmit_calls h)
    × ((h : History) → other_calls (e ∷ h) ≡ e ∷ other_calls h)
    × ((p : ℕ) → takes p e ≡ 0)
    × ((p : ℕ) → gives p e ≡ 0)
    × ((m : Mailbox) → advance e m ≡ m)

side : (e : Event) → IsOwn e ⊎ IsOther e
unfolding transmit_calls other_calls advance
side (tx_dequeue n q) = inl ((λ h. refl), (λ h. refl), (λ p. refl), (λ p. refl), refl)
side (tx_enqueue q r) = inl ((λ h. refl), (λ h. refl), (λ p. refl), (λ p. refl), refl)
side (async_out b r) = inl ((λ h. refl), (λ h. refl), (λ p. refl), (λ p. refl), refl)
side clear_stall_out = inl ((λ h. refl), (λ h. refl), (λ p. refl), (λ p. refl), refl)
side (async_in r) = inr ((λ h. refl), (λ h. refl), (λ p. refl), (λ p. refl), (λ m. refl))
side (rx_dequeue n q) = inr ((λ h. refl), (λ h. refl), (λ p. refl), (λ p. refl), (λ m. refl))
side (rx_enqueue q r) = inr ((λ h. refl), (λ h. refl), (λ p. refl), (λ p. refl), (λ m. refl))
side (pool_allocate r q) = inr ((λ h. refl), (λ h. refl), (λ p. refl), (λ p. refl), (λ m. refl))
side (pool_deallocate q r) = inr ((λ h. refl), (λ h. refl), (λ p. refl), (λ p. refl), (λ m. refl))
side (packet_write q n b) = inr ((λ h. refl), (λ h. refl), (λ p. refl), (λ p. refl), (λ m. refl))
side (set_length q n r) = inr ((λ h. refl), (λ h. refl), (λ p. refl), (λ p. refl), (λ m. refl))
side (wake_at n r) = inr ((λ h. refl), (λ h. refl), (λ p. refl), (λ p. refl), (λ m. refl))
side clear_stall_in = inr ((λ h. refl), (λ h. refl), (λ p. refl), (λ p. refl), (λ m. refl))
side (abort_in r) = inr ((λ h. refl), (λ h. refl), (λ p. refl), (λ p. refl), (λ m. refl))
side (abort_out r) = inr ((λ h. refl), (λ h. refl), (λ p. refl), (λ p. refl), (λ m. refl))
side (queue_enable n b r) = inr ((λ h. refl), (λ h. refl), (λ p. refl), (λ p. refl), (λ m. refl))
side (super_enable b r) = inr ((λ h. refl), (λ h. refl), (λ p. refl), (λ p. refl), (λ m. refl))
side (report_link b r) = inr ((λ h. refl), (λ h. refl), (λ p. refl), (λ p. refl), (λ m. refl))
side (open_interface r) = inr ((λ h. refl), (λ h. refl), (λ p. refl), (λ p. refl), (λ m. refl))
side close_interface = inr ((λ h. refl), (λ h. refl), (λ p. refl), (λ p. refl), (λ m. refl))
side super_stop = inr ((λ h. refl), (λ h. refl), (λ p. refl), (λ p. refl), (λ m. refl))

pub taken-transmit_calls : (p : ℕ) (h : History) → taken p (transmit_calls h) ≡ taken p h
unfolding taken transmit_calls
taken-transmit_calls p [] = refl
taken-transmit_calls p (e ∷ h) = elim (side e) [
  | inr o ↦ rw (o.0 h) (omega (arith, o.2 p, taken-transmit_calls p h))
  | inl o ↦ rw (o.0 h) (omega (arith, taken-transmit_calls p h))
]

pub given-transmit_calls : (p : ℕ) (h : History) → given p (transmit_calls h) ≡ given p h
unfolding given transmit_calls
given-transmit_calls p [] = refl
given-transmit_calls p (e ∷ h) = elim (side e) [
  | inr o ↦ rw (o.0 h) (omega (arith, o.3 p, given-transmit_calls p h))
  | inl o ↦ rw (o.0 h) (omega (arith, given-transmit_calls p h))
]

pub replay-transmit_calls : (h : History) → replay (transmit_calls h) ≡ replay h
unfolding replay transmit_calls
replay-transmit_calls [] = refl
replay-transmit_calls (e ∷ h) = elim (side e) [
  | inr o ↦ rw (o.0 h, o.4 (replay h)) (replay-transmit_calls h)
  | inl o ↦ rw (o.0 h) (ap (advance e) (replay-transmit_calls h))
]

pub acquired-other_calls : (p : ℕ) (h : History) → acquired p (other_calls h) ≡ acquired p h
unfolding acquired other_calls
acquired-other_calls p [] = refl
acquired-other_calls p (e ∷ h) = elim (side e) [
  | inl o ↦ rw (o.1 h) (omega (arith, o.2 p, acquired-other_calls p h))
  | inr o ↦ rw (o.1 h) (omega (arith, acquired-other_calls p h))
]

pub disposed-other_calls : (p : ℕ) (h : History) → disposed p (other_calls h) ≡ disposed p h
unfolding disposed other_calls
disposed-other_calls p [] = refl
disposed-other_calls p (e ∷ h) = elim (side e) [
  | inl o ↦ rw (o.1 h) (omega (arith, o.3 p, disposed-other_calls p h))
  | inr o ↦ rw (o.1 h) (omega (arith, disposed-other_calls p h))
]

pub accepted-other_calls : (h : History) → accepted (other_calls h) ≡ accepted h
unfolding accepted other_calls
accepted-other_calls [] = refl
accepted-other_calls (e ∷ h) = elim (side e) [
  | inl o ↦ rw (o.1 h) (omega (arith, o.4, accepted-other_calls h))
  | inr o ↦ rw (o.1 h) (omega (arith, accepted-other_calls h))
]
