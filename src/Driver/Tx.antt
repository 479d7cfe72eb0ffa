-- ===== src/Driver/Tx.antt =====
-- dext/SMSC95xxDriver/SMSC95xxDriver_datapath.cpp: transmit. The drain loop takes fuel, and `none`
-- means that the fuel ran out. Logging, and the flags that only guard a log line, are left out where
-- nothing else reads them.
use smsc95xx_macos.Base.{
  ℕ, zero, suc, ◌+◌, ◌-◌, ◌*◌, Bool, true, false, not, ◌&&◌, ◌||◌, Option, none, some, List, ◌∷◌,
  ltb, ◌==◌, if◌then◌else◌, incr, u32, u64, take, write_at,
}
pub mod Mailbox
pub mod Ledger
pub mod Cases
pub mod Accounting
pub mod Loop
pub mod Callbacks
pub mod Wire
pub mod Drain
pub mod Ending
pub mod Concluding
pub mod Refusing
use mathlib.Core.Option
use smsc95xx_macos.Regs.{tx_header_len}
use smsc95xx_macos.Proto.Tx.{tx_prepend}
use smsc95xx_macos.Driver.Status.{KernReturn, is_success, is_aborted, is_stalled}
use smsc95xx_macos.Driver.Kit.{
  Kit, Event, tx_dequeue, tx_enqueue, async_out, clear_stall_out, read_run,
}
use smsc95xx_macos.Driver.State.{Driver, Transmit, record_event}

abbrev pub tx_max_frame : ℕ
tx_max_frame = 1518

abbrev pub tx_buffer_len : ℕ
tx_buffer_len = tx_header_len + tx_max_frame

abbrev pub pool_buffer_size : ℕ
pool_buffer_size = 2048

-- Counting a refused packet.
abbrev pub tx_reject : KernReturn → Driver → KernReturn × Driver
tx_reject ret s = (ret, record s { tx = record s.tx { tx_rejected = incr s.tx.tx_rejected } })

pub data TxRound : Type 0 where
  stop sent refused : Driver → TxRound

-- What follows a round, with the loop's next iteration.
abbrev pub tx_loop_rest : (ℕ → Driver → Option (Driver × ℕ)) → ℕ → TxRound → Option (Driver × ℕ)
tx_loop_rest again n (stop s) = some (s, n)
tx_loop_rest again n (sent s) = again (n + 1) s
tx_loop_rest again n (refused s) = again n s

-- After the loop: nothing was consumed because a transfer is in flight.
abbrev pub tx_drain_end : Driver × ℕ → Driver
tx_drain_end (s, n) =
    if s.tx.tx_in_flight && n == 0
    then record s { tx = record s.tx { tx_deferred = incr s.tx.tx_deferred } }
    else s

-- The counters of a completion, and the recovery of a stalled pipe.
pub tx_account_status : KernReturn → ℕ → Driver → Driver
tx_account_status status count s =
    if is_success status
    then record s {
      tx = record s.tx {
        tx_frames = incr s.tx.tx_frames;
        tx_bytes_sent = u64 (s.tx.tx_bytes_sent + count);
      };
    }
    else if is_aborted status
    then record s { tx = record s.tx { tx_aborted = incr s.tx.tx_aborted } }
    else let s1 = record s { tx = record s.tx { tx_errors = incr s.tx.tx_errors } } in
      if is_stalled status && s1.handles.pipe_out
      then record s1 {
        tx = record s1.tx { tx_stalls = incr s1.tx.tx_stalls };
        history = clear_stall_out ∷ s1.history;
      }
      else s1

module _ (kit : Kit) where
  -- `nullptr` is ignored.
  pub tx_return_packet : Option ℕ → Driver → Driver
  tx_return_packet none s = s
  tx_return_packet (some packet) s =
      if s.handles.tx_complete
      then (let ret = kit.enqueue_tx s.history packet in
          let s1 = record_event (tx_enqueue packet ret) s in
          if is_success ret
          then record s1 { tx = record s1.tx { tx_returned = incr s1.tx.tx_returned } }
          else record s1 { tx = record s1.tx { tx_lost = incr s1.tx.tx_lost } })
      else record s { tx = record s.tx { tx_lost = incr s.tx.tx_lost } }

  -- The transfer itself: the state is set before `AsyncIO`, and undone if it is refused.
  pub tx_start_transfer : ℕ → List ℕ → Driver → KernReturn × Driver
  tx_start_transfer packet transfer s =
      let ret = kit.write_out s.history transfer in
      let s1 = record_event (async_out transfer ret) s in
      if is_success ret
      then (
        KernReturn.success,
        record s1 {
          tx = record s1.tx {
            tx_in_flight = true;
            tx_packet = some packet;
            tx_submitted = incr s1.tx.tx_submitted;
          };
        },
      )
      else (
        ret,
        record s1 {
          tx = record s1.tx {
            tx_in_flight = false;
            tx_packet = none;
            tx_submit_failures = incr s1.tx.tx_submit_failures;
          };
        },
      )

  -- From `smsc95xx_tx_prepend` on, with the transmit buffer `bytes`.
  pub tx_frame_packet : ℕ → ℕ → List ℕ → Driver → KernReturn × Driver
  tx_frame_packet packet frame_len bytes s =
      let data_off = kit.data_off s.history packet in
      let frame_at = u64 (kit.data_address s.history packet + data_off) in
      let (hdr_len, framed) = tx_prepend bytes tx_buffer_len frame_len in
      let s1 = record s { tx = record s.tx { tx_bytes = some framed } } in
      if not (hdr_len == tx_header_len)
      then tx_reject KernReturn.bad_argument s1
      else if ltb frame_at 0x100000 || ltb pool_buffer_size (u64 (data_off + frame_len))
      then tx_reject KernReturn.bad_argument s1
      else let filled =
          write_at hdr_len (read_run (kit.memory s.history) frame_at frame_len) framed in
        let s2 = record s { tx = record s.tx { tx_bytes = some filled } } in
        tx_start_transfer packet (take (u32 (hdr_len + frame_len)) filled) s2

  pub tx_submit_packet : ℕ → Driver → KernReturn × Driver
  tx_submit_packet packet s =
      let frame_len = kit.data_length s.history packet in
      if frame_len == 0 || ltb tx_max_frame frame_len
      then tx_reject KernReturn.bad_argument s
      else elim s.tx.tx_bytes [
        | none ↦ tx_reject KernReturn.not_attached s
        | some bytes ↦
            if not (s.handles.tx_buffer && s.handles.pipe_out && s.handles.tx_action)
            then tx_reject KernReturn.not_attached s
            else tx_frame_packet packet frame_len bytes s
      ]

  -- The packet that came with a count: it is submitted, or refused and handed back.
  pub tx_dispose : Option ℕ → Driver → TxRound
  tx_dispose none s = stop (record s { tx = record s.tx { tx_errors = incr s.tx.tx_errors } })
  tx_dispose (some p) s =
      let s1 = record s { tx = record s.tx { tx_dequeued = incr s.tx.tx_dequeued } } in
      let (sret, s2) = tx_submit_packet p s1 in
      if is_success sret then sent s2 else refused (tx_return_packet (some p) s2)

  -- One round of the loop of `txDrainSubmission`, with no transfer in flight.
  pub tx_drain_round : Driver → TxRound
  tx_drain_round s =
      let (count, packet) = kit.dequeue_tx s.history in
      let s1 = record_event (tx_dequeue count packet) s in
      if count == 0 then stop s1 else tx_dispose packet s1

  -- `while (!ivars->txInFlight)`, with the number of packets sent so far.
  pub tx_drain_loop : ℕ → ℕ → Driver → Option (Driver × ℕ)
  tx_drain_loop zero n s = none
  tx_drain_loop (suc fuel) n s =
      if s.tx.tx_in_flight
      then some (s, n)
      else tx_loop_rest (tx_drain_loop fuel) n (tx_drain_round s)

  pub tx_drain_submission : ℕ → Driver → Option Driver
  tx_drain_submission fuel s =
      let s1 = record s { tx = record s.tx { tx_drains = incr s.tx.tx_drains } } in
      if not (s1.handles.tx_submit && s1.handles.tx_complete)
      then some s1
      else if not s1.tx.tx_datapath_ready
      then some s1
      else Option.map tx_drain_end (tx_drain_loop fuel 0 s1)

  -- The doorbell.
  pub tx_data_available : ℕ → Driver → Option Driver
  tx_data_available fuel s =
      let s1 = record s {
        tx = record s.tx { tx_doorbells = incr s.tx.tx_doorbells; in_tx_data_available = true };
      } in
      let leave = λ (t : Driver). record t { tx = record t.tx { in_tx_data_available = false } } in
      if not (s1.handles.tx_submit && s1.handles.tx_complete)
      then some (leave s1)
      else Option.map leave (tx_drain_submission fuel s1)

  -- A bulk OUT transfer has finished with a status and a byte count.
  pub tx_completed : ℕ → KernReturn → ℕ → Driver → Option Driver
  tx_completed fuel status count s =
      let packet = s.tx.tx_packet in
      let s1 = record s {
        tx = record s.tx {
          tx_packet = none;
          tx_in_flight = false;
          tx_completions = incr s.tx.tx_completions;
          in_tx_complete = true;
        };
      } in
      let s2 = tx_return_packet packet (tx_account_status status count s1) in
      Option.map (λ (t : Driver). record t { tx = record t.tx { in_tx_complete = false } })
        (tx_drain_submission fuel s2)
