-- ===== src/Driver/Tx/Mailbox.antt =====
-- What the transmit path promises, as a machine of its own: one place for a packet. A packet is taken
-- only into a vacant place, one transfer is started of a packet that is held, and a packet is handed
-- back from where it is. The machine is run over the history of calls.
use smsc95xx_macos.Base.{ℕ, Option, none, some, [], ◌∷◌, ◌==◌, if◌then◌else◌}
use smsc95xx_macos.Driver.Status.{KernReturn, is_success}
use smsc95xx_macos.Driver.Kit.{Event, History, tx_dequeue, tx_enqueue, async_out}

-- Nothing; a packet that was taken; a packet whose transfer was accepted; and a breach of the promise.
pub data Mailbox : Type 0 where
  vacant : Mailbox
  holding on_wire : ℕ → Mailbox
  broken : Mailbox

unfoldable pub take_in : ℕ → Mailbox → Mailbox
take_in p vacant = holding p
take_in p _ = broken

unfoldable pub start : KernReturn → Mailbox → Mailbox
start r (holding p) = if is_success r then on_wire p else holding p
start r _ = broken

unfoldable pub hand_back : ℕ → Mailbox → Mailbox
hand_back p (holding q) = if q == p then vacant else broken
hand_back p (on_wire q) = if q == p then vacant else broken
hand_back p _ = broken

unfoldable pub advance : Event → Mailbox → Mailbox
advance (tx_dequeue n (some p)) m = if n == 0 then m else take_in p m
advance (tx_enqueue p r) m = hand_back p m
advance (async_out b r) m = start r m
advance _ m = m

unfoldable pub replay : History → Mailbox
replay [] = vacant
replay (e ∷ h) = advance e (replay h)

-- The machine's state that a driver's record of its packet stands for.
abbrev pub place : Option ℕ → Mailbox
place none = vacant
place (some p) = on_wire p
