-- ===== src/Driver/Release/Final.antt =====
-- After the release: every packet is back, nothing is held, and no late callback calls anything.
use smsc95xx_macos.Base.{ℕ, ◌+◌, u64, ◌≡◌, ◌∙◌, sym, ap, true, false, [], none, List, arith}
use smsc95xx_macos.Driver.Status.{KernReturn}
use smsc95xx_macos.Driver.Kit.{Kit}
use smsc95xx_macos.Driver.State.{Driver, Handles, Transmit, Receive, Lifecycle}
use smsc95xx_macos.Driver.Sides.{taken-transmit_calls, given-transmit_calls, replay-transmit_calls}
use smsc95xx_macos.Driver.Tx.{tx_data_available, tx_completed}
use smsc95xx_macos.Driver.Tx.Ledger.{TxInv, taken, given, transmit_calls}
use smsc95xx_macos.Driver.Tx.Mailbox.{replay, vacant}
use smsc95xx_macos.Driver.Tx.Loop.{OnSome, OnSome-weaken}
use smsc95xx_macos.Driver.Rx.{rx_completed, rx_backoff_expired}
use smsc95xx_macos.Driver.Tx.Ending.{tx_data_available-shut, tx_completed-shut}
use smsc95xx_macos.Driver.Interface.Enabling.{set_interface_enable-stopping}
use smsc95xx_macos.Driver.Rx.Backoff.{rx_completed-stopped}
use smsc95xx_macos.Driver.Interface.{quiesce_datapath, set_interface_enable}
use smsc95xx_macos.Driver.Interface.Quiescing.{quiesce_datapath-TxInv, quiesce_datapath-shuts}
use smsc95xx_macos.Driver.Release.Packet.{dropped-Back}
use smsc95xx_macos.Driver.Release.{
  drop_datapath, release_packet, release_datapath, close_opened, release_resources,
}

-- Null everywhere.
abbrev pub no_handles : Handles
no_handles = record {
  interface = false;
  ctrl_buffer = false;
  ctrl_bytes = false;
  dispatch_queue = false;
  pool = false;
  tx_submit = false;
  rx_submit = false;
  tx_complete = false;
  rx_complete = false;
  pipe_in = false;
  pipe_out = false;
  rx_buffer = false;
  rx_bytes = false;
  tx_buffer = false;
  rx_action = false;
  tx_action = false;
  tx_data_queue = false;
  tx_data_available_action = false;
  rx_backoff_timer = false;
  rx_backoff_action = false;
}

-- Nothing is held, and each packet that was taken to send is back as often as it was taken, also by the
-- counters.
pub record Released (t : Driver) : Type 0 where
  pub handles : t.handles ≡ no_handles
  pub closed : t.life.interface_opened ≡ false
  pub idle : (t.tx.tx_in_flight ≡ false) × (t.tx.tx_packet ≡ none) × (t.tx.tx_bytes ≡ none)
  pub unarmed : t.rx.rx_armed ≡ false
  pub returned : (p : ℕ) → taken p t.history ≡ given p t.history
  pub mailbox : replay t.history ≡ vacant
  pub balance : t.tx.tx_dequeued ≡ u64 (t.tx.tx_returned + t.tx.tx_lost)

-- A callback that comes late makes no call; the transfer that it completes has no packet.
pub record Silent (kit : Kit) (t : Driver) : Type 0 where
  pub doorbell :
      (fuel : ℕ) → OnSome (λ (u : Driver). u.history ≡ t.history) (tx_data_available kit fuel t)
  pub write_finished :
      (fuel : ℕ) (status : KernReturn) (count : ℕ)
      → OnSome (λ (u : Driver). u.history ≡ t.history) (tx_completed kit fuel status count t)
  pub read_finished :
      (fuel : ℕ) (status : KernReturn) (count : ℕ) (bytes : List ℕ)
      → OnSome (λ (u : Driver). u.history ≡ t.history) (rx_completed kit fuel status count bytes t)
  pub timer_fired : (rx_backoff_expired kit t).history ≡ t.history
  pub enable : set_interface_enable kit true t ≡ (KernReturn.offline, t)

-- Closing the interface touches nothing else.
close_opened-rest :
    (s : Driver)
    → ((close_opened s).handles ≡ s.handles)
      × ((close_opened s).tx ≡ s.tx)
      × ((close_opened s).rx ≡ s.rx)
      × ((close_opened s).life.stopping ≡ s.life.stopping)
      × (transmit_calls (close_opened s).history ≡ transmit_calls s.history)
unfolding transmit_calls
close_opened-rest s = ground arith

close_opened-closed :
    (s : Driver)
    → (s.life.interface_opened ≡ true → s.handles.interface ≡ true)
    → (close_opened s).life.interface_opened ≡ false
close_opened-closed s there = ground (arith, there)

module _ (kit : Kit) where
  -- A null queue, a closed gate, and a stopping driver whose receive loop is not running.
  abbrev pub IsShut : Driver → Type 0
  IsShut t =
      (t.handles ≡ no_handles)
      × (t.tx.tx_packet ≡ none)
      × (t.rx.rx_running ≡ false)
      × (t.life.stopping ≡ true)

  pub shut-Silent : (t : Driver) → IsShut t → Silent kit t
  shut-Silent t (h, p, r, x) = record {
    doorbell = λ fuel. tx_data_available-shut kit fuel t (ap (λ (k : Handles). k.tx_submit) h);
    write_finished = λ fuel status count.
        tx_completed-shut kit fuel status count t (ap (λ (k : Handles). k.tx_submit) h)
          (ap (λ (k : Handles). k.pipe_out) h) p;
    read_finished = λ fuel status count bytes.
        OnSome-weaken _ (λ (u : Driver). u.history ≡ t.history) (λ u e. e.0) _
          (rx_completed-stopped kit fuel count status bytes t r).1;
    timer_fired = (rx_completed-stopped kit 0 0 KernReturn.success [] t r).0;
    enable = set_interface_enable-stopping kit t x;
  }

  release-handles : (s : Driver) → TxInv s → (release_resources kit s).handles ≡ no_handles
  unfolding release_resources release_datapath
  release-handles s v =
      let u = release_datapath kit s in
      ap
        (λ (h : Handles). record h {
          tx_submit = false;
          rx_submit = false;
          tx_complete = false;
          rx_complete = false;
          pool = false;
          interface = false;
          ctrl_bytes = false;
          ctrl_buffer = false;
          dispatch_queue = false;
        })
        ((close_opened-rest u).0 ∙ (dropped-Back kit s v).rest.0)

  -- What was sent and handed back is as after the release of the packet.
  release-calls :
      (s : Driver)
      → transmit_calls (release_resources kit s).history
        ≡ transmit_calls (release_packet kit s.tx.tx_packet (drop_datapath s)).history
  unfolding release_resources release_datapath
  release-calls s = (close_opened-rest (release_datapath kit s)).4

  -- Whether receive runs, and whether the driver is stopping, is as before; and there is no packet.
  pub release-still :
      (s : Driver)
      → TxInv s
      → ((release_resources kit s).rx.rx_running ≡ s.rx.rx_running)
        × ((release_resources kit s).life.stopping ≡ s.life.stopping)
        × ((release_resources kit s).tx.tx_packet ≡ none)
  unfolding release_resources release_datapath
  release-still s v =
      let b = dropped-Back kit s v in
      let c = close_opened-rest (release_datapath kit s) in
      (
        ap (λ (x : Receive). x.rx_running) c.2 ∙ ap (λ (x : Receive). x.rx_running) b.rest.1,
        c.3 ∙ ap (λ (k : Lifecycle). k.stopping) b.rest.2,
        ap (λ (x : Transmit). x.tx_packet) c.1 ∙ b.idle.1,
      )

  pub release-Released :
      (s : Driver)
      → TxInv s
      → (s.life.interface_opened ≡ true → s.handles.interface ≡ true)
      → Released (release_resources kit s)
  unfolding release_resources release_datapath
  release-Released s v opened =
      let b = dropped-Back kit s v in
      let u = release_datapath kit s in
      let t = release_resources kit s in
      let p = release_packet kit s.tx.tx_packet (drop_datapath s) in
      let c = close_opened-rest u in
      let same = release-calls s in
      record {
        handles = release-handles s v;
        closed = close_opened-closed u (λ h.
            ap (λ (k : Handles). k.interface) b.rest.0
            ∙ opened (sym (ap (λ (k : Lifecycle). k.interface_opened) b.rest.2) ∙ h));
        idle = (
          ap (λ (x : Transmit). x.tx_in_flight) c.1 ∙ b.idle.0,
          ap (λ (x : Transmit). x.tx_packet) c.1 ∙ b.idle.1,
          ap (λ (x : Transmit). x.tx_bytes) c.1 ∙ b.bytes,
        );
        unarmed = ap (λ (x : Receive). x.rx_armed) c.2;
        returned = λ q.
            sym (taken-transmit_calls q t.history)
            ∙ ap (taken q) same
            ∙ taken-transmit_calls q p.history
            ∙ b.returned q
            ∙ sym (given-transmit_calls q p.history)
            ∙ ap (given q) (sym same)
            ∙ given-transmit_calls q t.history;
        mailbox =
            sym (replay-transmit_calls t.history)
            ∙ ap replay same
            ∙ replay-transmit_calls p.history
            ∙ b.mailbox;
        balance =
            ap (λ (x : Transmit). x.tx_dequeued) c.1
            ∙ b.balance
            ∙ sym (ap (λ (x : Transmit). u64 (x.tx_returned + x.tx_lost)) c.1);
      }

  -- Once the datapath is closed and the resources are released, every pointer is null and the interface
  -- closed, nothing is in flight, each packet that was ever taken to send has been handed back as often
  -- as it was taken, the one in flight included, and packets dequeued are packets returned and lost, if
  -- the transmit books were in order and an interface that was opened was there.
  pub release_resources-Released :
      (s : Driver)
      → TxInv s
      → (s.life.interface_opened ≡ true → s.handles.interface ≡ true)
      → Released (release_resources kit (quiesce_datapath kit s))
  release_resources-Released s v opened =
      let q = quiesce_datapath-shuts kit s in
      release-Released (quiesce_datapath kit s) (quiesce_datapath-TxInv kit s v)
        (λ h. ap (λ (k : Handles). k.interface) q.3 ∙ opened (sym q.2 ∙ h))

  -- Once the datapath is closed and the resources are released, a callback that is delivered late, a
  -- doorbell, a completion either way with any status, or the timer, makes no call, and the interface
  -- cannot be enabled, if the transmit books were in order.
  release_resources-Silent :
      (s : Driver) → TxInv s → Silent kit (release_resources kit (quiesce_datapath kit s))
  release_resources-Silent s v =
      let q = quiesce_datapath-shuts kit s in
      let w = quiesce_datapath-TxInv kit s v in
      let d = quiesce_datapath kit s in
      let a = release-still d w in
      shut-Silent (release_resources kit d) (release-handles d w, a.2, a.0 ∙ q.0, a.1 ∙ q.1)
