-- ===== src/Driver/Rx.antt =====
-- dext/SMSC95xxDriver/SMSC95xxDriver_datapath.cpp: receive. The transfer's bytes are those that it left
-- in the receive buffer. The walk over them takes fuel, and `none` means that the fuel ran out.
-- Logging, and the counters that only guard or fill a log line, are left out.
use smsc95xx_macos.Base.{
  ℕ, zero, suc, ◌+◌, ◌-◌, ◌*◌, ◌≤◌, Bool, true, false, not, ◌&&◌, ◌||◌, Option, none, some, List,
  ◌∷◌, ltb, leb, ◌==◌, if◌then◌else◌, incr, u32, u64, length, take, drop, is_some, bit_and, bit_or,
}
pub mod Steps
pub mod Walk
pub mod Books
pub mod Custody
pub mod Tail
pub mod Beside
pub mod Arming
pub mod Aside
pub mod Backoff
pub mod Copies
pub mod Completion
use mathlib.Core.Option
use smsc95xx_macos.Regs.{rx_crc_len, rx_sts_error_sum, rx_sts_filter_fail}
use smsc95xx_macos.Proto.Rx.{RxRecord, rx_next}
use smsc95xx_macos.Driver.Status.{KernReturn, is_success, is_aborted, is_stalled}
use smsc95xx_macos.Driver.Kit.{
  Kit, Event, rx_dequeue, rx_enqueue, pool_allocate, pool_deallocate, packet_write, set_length,
  async_in, wake_at, clear_stall_in,
}
use smsc95xx_macos.Driver.State.{Driver, Receive, record_event}
use smsc95xx_macos.Driver.Tx.{pool_buffer_size}

abbrev pub rx_max_payload : ℕ
rx_max_payload = 1518

abbrev pub rx_idle_run_limit : ℕ
rx_idle_run_limit = 8

abbrev pub rx_backoff_ns : ℕ
rx_backoff_ns = 100 * 1000 * 1000

-- The next record is decoded, or the rest of the transfer is given up.
pub data RecordEnd : Type 0 where
  next_record give_up : Driver → RecordEnd

-- A dropped record is counted, and counted again under its reason.
abbrev pub drop_record : (Receive → Receive) → Driver → Driver
drop_record reason s = record s { rx = reason (record s.rx { rx_dropped = incr s.rx.rx_dropped }) }

abbrev pub for_err_sum : Receive → Receive
for_err_sum r = record r { rx_drop_err_sum = incr r.rx_drop_err_sum }

abbrev pub for_short : Receive → Receive
for_short r = record r { rx_drop_short = incr r.rx_drop_short }

abbrev pub for_oversize : Receive → Receive
for_oversize r = record r { rx_drop_oversize = incr r.rx_drop_oversize }

abbrev pub for_no_buffer : Receive → Receive
for_no_buffer r = record r { rx_drop_no_buffer = incr r.rx_drop_no_buffer }

abbrev pub for_bad_addr : Receive → Receive
for_bad_addr r = record r { rx_drop_bad_addr = incr r.rx_drop_bad_addr }

abbrev pub for_bad_fit : Receive → Receive
for_bad_fit r = record r { rx_drop_bad_fit = incr r.rx_drop_bad_fit }

abbrev pub for_set_len : Receive → Receive
for_set_len r = record r { rx_drop_set_len = incr r.rx_drop_set_len }

abbrev pub for_enqueue : Receive → Receive
for_enqueue r = record r { rx_drop_enqueue = incr r.rx_drop_enqueue }

-- What follows a record, with the loop's next iteration.
abbrev pub rx_walk_on : (Driver → Option (Driver × ℕ)) → ℕ → RecordEnd → Option (Driver × ℕ)
rx_walk_on again records (give_up s) = some (s, records)
rx_walk_on again records (next_record s) = again s

-- `while (smsc95xx_rx_next (...))`, with the loop's body.
abbrev pub rx_walk_from :
    (RxRecord → Option (Driver × ℕ)) → Option (Driver × ℕ) → Option RxRecord → Option (Driver × ℕ)
rx_walk_from body stop none = stop
rx_walk_from body stop (some r) = body r

module _ (kit : Kit) where
  pub arm_rx_read : Driver → KernReturn × Driver
  arm_rx_read s =
      if s.life.stopping
      then (KernReturn.offline, s)
      else if not (s.handles.pipe_in && s.handles.rx_action && s.handles.rx_buffer)
      then (KernReturn.not_attached, s)
      else if s.rx.rx_armed
      then (KernReturn.success, s)
      else let ret = kit.read_in s.history in
        let s1 = record_event (async_in ret) s in
        if not (is_success ret)
        then (ret, record s1 { rx = record s1.rx { rx_arm_failures = incr s1.rx.rx_arm_failures } })
        else (
          KernReturn.success,
          record s1 {
            rx = record s1.rx { rx_armed = true; rx_arm_count = incr s1.rx.rx_arm_count };
          },
        )

  -- `rearmRxRead (true)`.
  pub rearm_after_data : Driver → Driver
  rearm_after_data s =
      (arm_rx_read (record s { rx = record s.rx { rx_idle_run = 0; rx_backoff_active = false } })).1

  -- The timer takes over from the immediate re-arm.
  pub rx_back_off : Driver → Driver
  rx_back_off s =
      if not s.handles.rx_backoff_timer
      then s
      else let deadline = u64 (kit.clock s.history + rx_backoff_ns) in
        let ret = kit.wake s.history deadline in
        let s1 = record_event (wake_at deadline ret) s in
        if not (is_success ret)
        then record s1 { rx = record s1.rx { rx_backoff_active = false } }
        else if not s1.rx.rx_backoff_active
        then record s1 {
          rx = record s1.rx {
            rx_backoff_active = true;
            rx_backoff_episodes = incr s1.rx.rx_backoff_episodes;
          };
        }
        else s1

  -- `rearmRxRead (false)`.
  pub rearm_after_nothing : Driver → Driver
  rearm_after_nothing s =
      let s1 = record s { rx = record s.rx { rx_idle_run = incr s.rx.rx_idle_run } } in
      if leb s1.rx.rx_idle_run rx_idle_run_limit then (arm_rx_read s1).1 else rx_back_off s1

  pub rearm_rx_read : Bool → Driver → Driver
  rearm_rx_read true s = rearm_after_data s
  rearm_rx_read false s = rearm_after_nothing s

  pub rx_backoff_expired : Driver → Driver
  rx_backoff_expired s =
      let s1 = record s { rx = record s.rx { rx_backoff_wakes = incr s.rx.rx_backoff_wakes } } in
      if not s1.rx.rx_running then s1 else (arm_rx_read s1).1

  -- `deallocatePacket` whose result is not looked at.
  pub rx_deallocate : ℕ → Driver → Driver
  rx_deallocate packet s = record_event (pool_deallocate packet (kit.deallocate s.history packet)) s

  -- `deallocatePacket`, with a refused packet counted as lost.
  pub rx_give_back : ℕ → Driver → Driver
  rx_give_back packet s =
      let s1 = rx_deallocate packet s in
      if is_success (kit.deallocate s.history packet)
      then s1
      else record s1 { rx = record s1.rx { rx_lost = incr s1.rx.rx_lost } }

  pub deliver_packet : ℕ → Driver → Bool × Driver
  deliver_packet packet s =
      let ret = kit.enqueue_rx s.history packet in
      let s1 = record_event (rx_enqueue packet ret) s in
      if is_success ret then (true, s1) else (
        false,
        rx_give_back packet (record s1 {
          rx = record s1.rx { rx_enqueue_failures = incr s1.rx.rx_enqueue_failures };
        }),
      )

  -- The fallback of `rxAcquirePacket`.
  pub rx_allocate : Driver → Option ℕ × Driver
  rx_allocate s =
      let (ret, packet) = kit.allocate s.history in
      let s1 = record_event (pool_allocate ret packet) s in
      if not (is_success ret) || not (is_some packet)
      then (
        none,
        record s1 { rx = record s1.rx { rx_pool_failures = incr s1.rx.rx_pool_failures } },
      )
      else (packet, s1)

  pub rx_acquire_packet : Driver → Option ℕ × Driver
  rx_acquire_packet s =
      if s.handles.rx_submit
      then (let (count, packet) = kit.dequeue_rx s.history in
          let s1 = record_event (rx_dequeue count packet) s in
          if count == 1 && is_some packet
          then (
            packet,
            record s1 { rx = record s1.rx { rx_submit_dequeued = incr s1.rx.rx_submit_dequeued } },
          )
          else rx_allocate
              (record s1 { rx = record s1.rx { rx_submit_empty = incr s1.rx.rx_submit_empty } }))
      else rx_allocate
          (record s { rx = record s.rx { rx_submit_empty = incr s.rx.rx_submit_empty } })

  -- The frame is copied, its length set, and the packet delivered.
  pub rx_hand_over : ℕ → ℕ → List ℕ → Driver → Driver
  rx_hand_over packet data_off payload s =
      let s1 = record_event (packet_write packet data_off payload) s in
      let len = u32 (length payload) in
      let ret = kit.set_data_length s1.history packet len in
      let s2 = record_event (set_length packet len ret) s1 in
      if not (is_success ret)
      then rx_give_back packet (drop_record for_set_len s2)
      else let (taken, s3) = deliver_packet packet s2 in
        if taken
        then record s3 { rx = record s3.rx { rx_frames = incr s3.rx.rx_frames } }
        else drop_record for_enqueue s3

  -- From the address check on, with the packet to receive into.
  pub rx_fill_packet : ℕ → List ℕ → Driver → RecordEnd
  rx_fill_packet packet payload s =
      let data_off = kit.data_off s.history packet in
      if ltb (kit.data_address s.history packet) 0x100000
      then give_up (rx_deallocate packet (drop_record for_bad_addr s))
      else if ltb pool_buffer_size (u64 (data_off + length payload))
      then next_record (rx_deallocate packet (drop_record for_bad_fit s))
      else next_record (rx_hand_over packet data_off payload s)

  pub rx_receive : Option ℕ → List ℕ → Driver → RecordEnd
  rx_receive none payload s = give_up (drop_record for_no_buffer s)
  rx_receive (some packet) payload s = rx_fill_packet packet payload s

  -- One decoded record.
  pub rx_record : List ℕ → RxRecord → Driver → RecordEnd
  rx_record bytes r s =
      let s1 = record s { rx = record s.rx { rx_records = incr s.rx.rx_records } } in
      if not (bit_and r.status (bit_or rx_sts_error_sum rx_sts_filter_fail) == 0)
      then next_record (drop_record for_err_sum s1)
      else if leb r.frame_len rx_crc_len
      then next_record (drop_record for_short s1)
      else if ltb rx_max_payload (r.frame_len - rx_crc_len)
      then next_record (drop_record for_oversize s1)
      else let (packet, s2) = rx_acquire_packet s1 in
        rx_receive packet (take (r.frame_len - rx_crc_len) (drop r.frame bytes)) s2

  -- The `while` loop, from an offset on, with the number of records so far.
  pub rx_walk : ℕ → List ℕ → ℕ → ℕ → ℕ → Driver → Option (Driver × ℕ)
  rx_walk zero bytes count offset records s = none
  rx_walk (suc fuel) bytes count offset records s =
      let records1 = u32 (records + 1) in
      rx_walk_from
        (λ r.
          rx_walk_on (rx_walk fuel bytes count r.offset records1) records1 (rx_record bytes r s))
        (some (s, records)) (rx_next bytes count offset)

  -- After the walk.
  pub rx_walk_end : Driver × ℕ → Driver
  rx_walk_end (s, records) =
      let s1 =
        if records == 0
        then record s { rx = record s.rx { rx_zero_records = incr s.rx.rx_zero_records } }
        else s in
      rearm_rx_read true s1

  -- A failed transfer.
  pub rx_failed : KernReturn → Driver → Driver
  rx_failed status s =
      let s1 = record s {
        rx = record s.rx { rx_completion_errors = incr s.rx.rx_completion_errors };
      } in
      rearm_rx_read false (if is_stalled status then record_event clear_stall_in s1 else s1)

  -- The exits of `RxComplete` after its first lines, with `inRxComplete` still set.
  pub rx_dispatch : ℕ → KernReturn → ℕ → List ℕ → Driver → Option Driver
  rx_dispatch fuel status count bytes s =
      if is_aborted status && not s.rx.rx_running
      then some s
      else if not s.rx.rx_running
      then some s
      else if not (s.handles.rx_bytes && s.handles.pool && s.handles.rx_complete)
      then some s
      else if not (is_success status)
      then some (rx_failed status s)
      else let s1 = record s {
        rx = record s.rx { rx_byte_count = u64 (s.rx.rx_byte_count + count) };
      } in
        if count == 0
        then some (
            rearm_rx_read false
              (record s1 { rx = record s1.rx { rx_zero_length = incr s1.rx.rx_zero_length } }))
        else Option.map rx_walk_end (rx_walk fuel bytes count 0 0 s1)

  -- A bulk IN transfer has finished with a status, a byte count, and its bytes.
  pub rx_completed : ℕ → KernReturn → ℕ → List ℕ → Driver → Option Driver
  rx_completed fuel status count bytes s =
      let s1 = record s {
        rx = record s.rx {
          rx_armed = false;
          rx_completions = incr s.rx.rx_completions;
          in_rx_complete = true;
        };
      } in
      Option.map (λ (t : Driver). record t { rx = record t.rx { in_rx_complete = false } })
        (rx_dispatch fuel status count bytes s1)
