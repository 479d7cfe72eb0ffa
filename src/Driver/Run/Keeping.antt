-- ===== src/Driver/Run/Keeping.antt =====
-- Each callback keeps the books of the path that it does not belong to.
use smsc95xx_macos.Base.{ℕ, ◌∙◌, sym, ap, none, arith}
use smsc95xx_macos.Driver.State.{Driver, Transmit}
use smsc95xx_macos.Driver.Sides.{
  taken-transmit_calls, given-transmit_calls, replay-transmit_calls, acquired-other_calls,
  disposed-other_calls, accepted-other_calls,
}
use smsc95xx_macos.Driver.Tx.Ledger.{TxInv, SameRest, transmit_calls}
use smsc95xx_macos.Driver.Tx.Mailbox.{replay, place}
use smsc95xx_macos.Driver.Rx.Books.{RxBooks, acquired, disposed}
use smsc95xx_macos.Driver.Rx.Beside.{accepted}
use smsc95xx_macos.Driver.Rx.Arming.{IsArmedOnce}
use smsc95xx_macos.Driver.Rx.Aside.{Aside}
use smsc95xx_macos.Driver.Interface.Keeping.{Unaffected}

pub Aside-TxInv : (s t : Driver) → Aside s t → TxInv s → TxInv t
Aside-TxInv s t a v = record {
  ledger = record { flag = rw a.1 v.ledger.flag; balance = rw a.1 v.ledger.balance };
  queue = λ h. rw a.0 (v.queue (rw a.1 at h));
  once = λ p.
      let x = taken-transmit_calls p s.history in
      let y = taken-transmit_calls p t.history in
      let z = given-transmit_calls p s.history in
      let w = given-transmit_calls p t.history in rw (a.1, sym y, sym w, a.3, x, z) (v.once p);
  mailbox =
      sym (replay-transmit_calls t.history)
      ∙ ap replay a.3
      ∙ replay-transmit_calls s.history
      ∙ v.mailbox
      ∙ sym (ap (λ (x : Transmit). place x.tx_packet) a.1);
}

pub SameRest-Books : (s t : Driver) → SameRest s t → RxBooks 0 none s → RxBooks 0 none t
SameRest-Books s t a b = record {
  identity = rw a.1 b.identity;
  reasons = rw a.1 b.reasons;
  custody = λ p.
      rw
        (
          sym (acquired-other_calls p t.history),
          sym (disposed-other_calls p t.history),
          a.3,
          acquired-other_calls p s.history,
          disposed-other_calls p s.history,
        )
        (b.custody p);
}

pub SameRest-IsArmedOnce : (n : ℕ) (s t : Driver) → SameRest s t → IsArmedOnce n s → IsArmedOnce n t
SameRest-IsArmedOnce n s t a i =
    rw (sym (accepted-other_calls t.history), a.3, accepted-other_calls s.history, a.1) i

pub Aside-Unaffected : (s : Driver) → Unaffected (Aside s)
unfolding transmit_calls
Aside-Unaffected s = record { queue = λ t i b r a. a; base = λ t b r a. a; link = λ t b r a. a }

pub Settled-Unaffected : Unaffected (RxBooks 0 none)
unfolding acquired disposed
Settled-Unaffected = record {
  queue = λ t i b r a. record {
    identity = a.identity;
    reasons = a.reasons;
    custody = λ p. omega (arith, a.custody p);
  };
  base = λ t b r a. record {
    identity = a.identity;
    reasons = a.reasons;
    custody = λ p. omega (arith, a.custody p);
  };
  link = λ t b r a. record {
    identity = a.identity;
    reasons = a.reasons;
    custody = λ p. omega (arith, a.custody p);
  };
}

pub IsArmedOnce-Unaffected : (n : ℕ) → Unaffected (IsArmedOnce n)
unfolding accepted
IsArmedOnce-Unaffected n = record {
  queue = λ t i b r a. omega (arith, a);
  base = λ t b r a. omega (arith, a);
  link = λ t b r a. omega (arith, a);
}
