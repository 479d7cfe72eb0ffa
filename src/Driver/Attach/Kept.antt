-- ===== src/Driver/Attach/Kept.antt =====
-- What the steps of an attach keep: rules on a list of steps, and the parts that no step before the
-- registration touches.
use smsc95xx_macos.Base.{
  is_some, ℕ, ◌+◌, ◌≡◌, ◌∙◌, refl, sym, ap, true, false, none, List, [], ◌∷◌, ◌++◌, if-cases,
  if◌then◌else◌, is_some, arith,
}
use smsc95xx_macos.Driver.Status.{KernReturn, is_success}
use smsc95xx_macos.Driver.Kit.{Event, History, open_interface, close_interface}
use smsc95xx_macos.Driver.Tx.Ledger.{TxInv, held, count_of, taken, given, transmit_calls}
use smsc95xx_macos.Driver.Tx.Mailbox.{replay, place}
use smsc95xx_macos.Driver.Sides.{taken-transmit_calls, given-transmit_calls, replay-transmit_calls}
use smsc95xx_macos.Driver.Attach.{Attach, Step, in_turn}

-- Each step of a list keeps `I`.
unfoldable pub EachKeeps : (Attach → Type 0) → List Step → Type 0
EachKeeps I [] = Unit
EachKeeps I (f ∷ fs) = ((a : Attach) → I a → I (f a).1) × EachKeeps I fs

pub in_turn_inv :
    (I : Attach → Type 0) (fs : List Step)
    → EachKeeps I fs
    → (a : Attach) → I a
    → I (in_turn fs a).1
unfolding in_turn EachKeeps
in_turn_inv I [] k a i = i
in_turn_inv I (f ∷ fs) k a i =
    if-cases (λ (o : KernReturn × Attach). I o.1) (is_success (f a).0) (in_turn fs (f a).1) (f a)
      (λ _. in_turn_inv I fs k.1 (f a).1 (k.0 a i)) (λ _. k.0 a i)

-- What one step establishes when it succeeds, and the steps after it keep, holds when all succeed.
pub in_turn_from :
    (J : Attach → Type 0) (before : List Step) (f : Step) (rest : List Step)
    → ((a : Attach) → is_success (f a).0 ≡ true → J (f a).1)
    → EachKeeps J rest
    → (a : Attach) → is_success (in_turn (before ++ f ∷ rest) a).0 ≡ true
    → J (in_turn (before ++ f ∷ rest) a).1
unfolding in_turn
in_turn_from J [] f rest est k a =
    if-cases (λ (o : KernReturn × Attach). is_success o.0 ≡ true → J o.1) (is_success (f a).0)
      (in_turn rest (f a).1) (f a) (λ ok _. in_turn_inv J rest k (f a).1 (est a ok))
      (λ bad ok. absurd (ground (arith, bad, ok)))
in_turn_from J (g ∷ before) f rest est k a =
    if-cases (λ (o : KernReturn × Attach). is_success o.0 ≡ true → J o.1) (is_success (g a).0)
      (in_turn (before ++ f ∷ rest) (g a).1) (g a) (λ _. in_turn_from J before f rest est k (g a).1)
      (λ bad ok. absurd (ground (arith, bad, ok)))

-- How often the interface was opened with success, and closed.
abbrev opening : Event → ℕ
opening (open_interface r) = if is_success r then 1 else 0
opening _ = 0

abbrev closing : Event → ℕ
closing close_interface = 1
closing _ = 0

unfoldable pub opens : History → ℕ
opens [] = 0
opens (e ∷ h) = opening e + opens h

unfoldable pub closes : History → ℕ
closes [] = 0
closes (e ∷ h) = closing e + closes h

-- Before the registration: no packet was taken, the interface is open as often as it was opened, and
-- nothing was registered.
pub record Early (a : Attach) : Type 0 where
  pub unsent : transmit_calls a.driver.history ≡ []
  pub packet : a.driver.tx.tx_packet ≡ none
  pub idle : a.driver.tx.tx_in_flight ≡ false
  pub counts :
      (a.driver.tx.tx_dequeued ≡ 0) × (a.driver.tx.tx_returned ≡ 0) × (a.driver.tx.tx_lost ≡ 0)
  pub opened : a.driver.life.interface_opened ≡ true → a.driver.handles.interface ≡ true
  pub balance :
      opens a.driver.history
      ≡ closes a.driver.history + (if a.driver.life.interface_opened then 1 else 0)
  pub unregistered : a.registered ≡ []

pub Early-TxInv : (a : Attach) → Early a → TxInv a.driver
Early-TxInv a e =
    let h = a.driver.history in
    record {
      ledger = record {
        flag = e.idle ∙ sym (ap is_some e.packet);
        balance = omega (arith, e.counts.0, e.counts.1, e.counts.2, ap count_of e.packet);
      };
      queue = λ some_held. absurd (ground (arith, some_held, e.packet));
      once = λ p.
          let t = sym (taken-transmit_calls p h) ∙ ap (taken p) e.unsent in
          let g = sym (given-transmit_calls p h) ∙ ap (given p) e.unsent in
          omega (arith, nothing p, t, g, ap (held p) e.packet);
      mailbox =
          sym (replay-transmit_calls h)
          ∙ ap replay e.unsent
          ∙ unfold replay in sym (ap place e.packet);
    }
  where
    nothing : (p : ℕ) → (taken p [] ≡ 0) × (given p [] ≡ 0)
    nothing p = unfold taken given in (refl, refl)
