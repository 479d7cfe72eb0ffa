-- ===== src/Driver/Life/Settling.antt =====
-- The whole life of the driver: what holds in each of its states, and what is left at its end.
use smsc95xx_macos.Base.{
  ℕ, ◌+◌, ◌≡◌, ◌∙◌, refl, ap, sym, true, false, Option, none, some, ◌==◌, if-cases, Option-cases,
  inl, inr, is_some, u64, arith,
}
use smsc95xx_macos.Driver.Kit.{Kit, super_stop}
use smsc95xx_macos.Driver.State.{Driver, Handles, record_event}
use smsc95xx_macos.Driver.Tx.Ledger.{TxInv, taken, given, transmit_calls, held, count_of}
use smsc95xx_macos.Driver.Tx.Mailbox.{replay, vacant, place}
use smsc95xx_macos.Driver.Interface.Quiescing.{quiesce_datapath-TxInv, quiesce_datapath-shuts}
use smsc95xx_macos.Driver.Run.Keeping.{Aside-TxInv}
use smsc95xx_macos.Driver.Release.{release_resources, stop}
use smsc95xx_macos.Driver.Release.Final.{
  Released, Silent, no_handles, release-Released, release-still, shut-Silent,
}
use smsc95xx_macos.Driver.Teardown.{Teardown, Reachable, begun, then_step}
use smsc95xx_macos.Driver.Teardown.Countdown.{Reachable-stops_once}
use smsc95xx_macos.Driver.Life.{
  release_when_due, Life, attached, called, read_finished, stopped, cancelled,
}
use smsc95xx_macos.Driver.Life.Carrying.{IsStill, Carried, Callback-Carried, rx_completed-Carried}

-- An interface that was opened is there.
abbrev pub IsThere : Driver → Type 0
IsThere s = s.life.interface_opened ≡ true → s.handles.interface ≡ true

-- From Stop on: the countdown is one that can come about, the receive loop does not run, and after the
-- release nothing is held.
abbrev pub Phase : Option Teardown → Driver → Type 0
Phase none s = s ≡ s
Phase (some x) s =
    ((h : Handles) × Reachable h x) × IsStill s × (x.releases ≡ 1 → s.handles ≡ no_handles)

pub record Holds (o : Option Teardown) (s : Driver) : Type 0 where
  pub books : TxInv s
  pub there : IsThere s
  pub phase : Phase o s

-- What is left when the base class has been stopped: no pointer and no open interface; every packet
-- that was taken is back, and counted; and doorbells, completions and the timer, late, make no call.
pub record Ended (kit : Kit) (s : Driver) : Type 0 where
  pub handles : s.handles ≡ no_handles
  pub closed : s.life.interface_opened ≡ false
  pub idle : (s.tx.tx_in_flight ≡ false) × (s.tx.tx_packet ≡ none)
  pub returned : (p : ℕ) → taken p s.history ≡ given p s.history
  pub mailbox : replay s.history ≡ vacant
  pub balance : s.tx.tx_dequeued ≡ u64 (s.tx.tx_returned + s.tx.tx_lost)
  pub silent : Silent kit s

Phase-kept : (o : Option Teardown) (s t : Driver) → Carried s t → Phase o s → Phase o t
Phase-kept none s t c p = refl
Phase-kept (some x) s t c (r, q, gone) = (r, c.still q, λ h. c.handles ∙ gone h)

Holds-kept : (o : Option Teardown) (s t : Driver) → Carried s t → Holds o s → Holds o t
Holds-kept o s t c v = record {
  books = c.books;
  there = λ h. ap (λ (k : Handles). k.interface) c.handles ∙ v.there (sym c.opened ∙ h);
  phase = Phase-kept o s t c v.phase;
}

-- A driver without a packet whose books are closed.
closed-TxInv : (t : Driver) → Released t → TxInv t
closed-TxInv t r = record {
  ledger = record {
    flag = r.idle.0 ∙ sym (ap is_some r.idle.1);
    balance = omega (arith, r.balance, ap count_of r.idle.1);
  };
  queue = λ h. absurd (ground (arith, h, ap is_some r.idle.1));
  once = λ p. omega (arith, r.returned p, ap (held p) r.idle.1);
  mailbox = r.mailbox ∙ sym (ap place r.idle.1);
}

super_stop-TxInv : (t : Driver) → TxInv t → TxInv (record_event super_stop t)
unfolding transmit_calls
super_stop-TxInv t v = Aside-TxInv t (record_event super_stop t) (refl, refl, refl, refl) v

module _ (kit : Kit) where
  pub release_when_due-Holds :
      (releases : ℕ) (h : Handles) (x : Teardown) (s : Driver)
      → Reachable h x
      → TxInv s
      → IsThere s
      → IsStill s
      → (x.releases ≡ releases → x.releases ≡ 1 → s.handles ≡ no_handles)
      → Holds (some x) (release_when_due kit releases x s)
  unfolding release_when_due
  release_when_due-Holds releases h x s r v there still gone =
      if-cases (Holds (some x)) (x.releases == releases) _ _
        (λ same. record {
          books = v;
          there = there;
          phase = ((h, r), still, gone (ground (arith, same)));
        })
        (λ _.
          let b = release-Released kit s v there in
          let a = release-still kit s v in
          record {
            books = super_stop-TxInv (release_resources kit s) (closed-TxInv _ b);
            there = λ o. absurd (ground (arith, o, b.closed));
            phase = ((h, r), (a.1 ∙ still.0, a.0 ∙ still.1), λ _. b.handles);
          })

  pub Life-Holds :
      (begin : Option Teardown) (first : Driver)
      → Holds begin first
      → (o : Option Teardown) (s : Driver) → Life kit begin first o s
      → Holds o s
  unfolding stop
  Life-Holds begin first v _ _ attached = v
  Life-Holds begin first v _ _ (called o s t l c) =
      let w = Life-Holds begin first v o s l in
      Holds-kept o s t (Callback-Carried kit s t c w.books) w
  Life-Holds begin first v _ _ (read_finished o fuel status count bytes s t l small e) =
      let w = Life-Holds begin first v o s l in
      Holds-kept o s t (rx_completed-Carried kit fuel status count bytes s t small e w.books) w
  Life-Holds begin first v _ _ (stopped s l) =
      let w = Life-Holds begin first v none s l in
      let q = quiesce_datapath-shuts kit s in
      release_when_due-Holds 0 (stop kit s).0.handles (stop kit s).1 (stop kit s).0
        (begun (stop kit s).0.handles) (quiesce_datapath-TxInv kit s w.books)
        (λ h. ap (λ (k : Handles). k.interface) q.3 ∙ w.there (sym q.2 ∙ h)) (q.1, q.0)
        (λ a b. absurd (omega (arith, a, b)))
  Life-Holds begin first v _ _ (cancelled x y s l p) =
      let w = Life-Holds begin first v (some x) s l in
      let ((h, r), still, gone) = w.phase in
      release_when_due-Holds x.releases h y s (then_step h x y r p) w.books w.there still
        (λ same one. gone (sym same ∙ one))

  pub ended : (s : Driver) → TxInv s → IsThere s → IsStill s → s.handles ≡ no_handles → Ended kit s
  ended s v there still gone = record {
    handles = gone;
    closed = closed;
    idle = (v.ledger.flag ∙ ap is_some empty, empty);
    returned = λ p. omega (arith, v.once p, ap (held p) empty);
    mailbox = v.mailbox ∙ ap place empty;
    balance = omega (arith, v.ledger.balance, ap count_of empty);
    silent = shut-Silent kit s (gone, empty, still.1, still.0);
  }
    where
      closed : s.life.interface_opened ≡ false
      closed = ground (arith, there, ap (λ (k : Handles). k.interface) gone)

      empty : s.tx.tx_packet ≡ none
      empty = elim (Option-cases s.tx.tx_packet) [
        | inl e ↦ e
        | inr (p, e) ↦
            absurd
              (ground (arith, v.queue (ap is_some e), ap (λ (k : Handles). k.tx_complete) gone))
      ]

  -- When the countdown has come to its end.
  pub Holds-Ended :
      (x : Teardown) (s : Driver)
      → Holds (some x) s
      → x.to_cancel ≡ 0
      → x.waiting ≡ 0
      → (x.stops ≡ 1) × (x.releases ≡ 1) × Ended kit s
  Holds-Ended x s w none_left none_waits =
      let ((h, r), still, gone) = w.phase in
      let (few, same, due) = Reachable-stops_once h x r in
      let once : x.stops ≡ 1 = due.1 (none_left, none_waits) in
      (once, same ∙ once, ended s w.books w.there still (gone (same ∙ once)))
