-- ===== src/Driver/State.antt =====
-- dext/SMSC95xxDriver/SMSC95xxDriver_ivars.h: SMSC95xxDriver_IVars, in four groups, and the history
-- of calls. A pointer that is only tested and released is true while it is not null; a packet is its
-- number; `tx_bytes` is the mapped transmit buffer.
use smsc95xx_macos.Base.{ℕ, Bool, Option, List, ◌∷◌}
use smsc95xx_macos.Driver.Kit.{Event, History}

pub record Handles : Type 0 where
  pub interface : Bool
  pub ctrl_buffer : Bool
  pub ctrl_bytes : Bool
  pub dispatch_queue : Bool
  pub pool : Bool
  pub tx_submit : Bool
  pub rx_submit : Bool
  pub tx_complete : Bool
  pub rx_complete : Bool
  pub pipe_in : Bool
  pub pipe_out : Bool
  pub rx_buffer : Bool
  pub rx_bytes : Bool
  pub tx_buffer : Bool
  pub rx_action : Bool
  pub tx_action : Bool
  pub tx_data_queue : Bool
  pub tx_data_available_action : Bool
  pub rx_backoff_timer : Bool
  pub rx_backoff_action : Bool

pub record Transmit : Type 0 where
  pub tx_bytes : Option (List ℕ)
  pub tx_in_flight : Bool
  pub tx_packet : Option ℕ
  pub tx_datapath_ready : Bool
  pub in_tx_data_available : Bool
  pub in_tx_complete : Bool
  pub tx_frames : ℕ
  pub tx_errors : ℕ
  pub tx_doorbells : ℕ
  pub tx_drains : ℕ
  pub tx_dequeued : ℕ
  pub tx_submitted : ℕ
  pub tx_completions : ℕ
  pub tx_returned : ℕ
  pub tx_lost : ℕ
  pub tx_bytes_sent : ℕ
  pub tx_rejected : ℕ
  pub tx_submit_failures : ℕ
  pub tx_stalls : ℕ
  pub tx_aborted : ℕ
  pub tx_deferred : ℕ

pub record Receive : Type 0 where
  pub in_rx_complete : Bool
  pub rx_armed : Bool
  pub rx_running : Bool
  pub rx_idle_run : ℕ
  pub rx_backoff_active : Bool
  pub rx_backoff_episodes : ℕ
  pub rx_backoff_wakes : ℕ
  pub rx_frames : ℕ
  pub rx_dropped : ℕ
  pub rx_completions : ℕ
  pub rx_completion_errors : ℕ
  pub rx_zero_length : ℕ
  pub rx_byte_count : ℕ
  pub rx_records : ℕ
  pub rx_zero_records : ℕ
  pub rx_drop_err_sum : ℕ
  pub rx_drop_short : ℕ
  pub rx_drop_oversize : ℕ
  pub rx_drop_no_buffer : ℕ
  pub rx_drop_bad_addr : ℕ
  pub rx_drop_bad_fit : ℕ
  pub rx_drop_set_len : ℕ
  pub rx_drop_enqueue : ℕ
  pub rx_enqueue_failures : ℕ
  pub rx_submit_dequeued : ℕ
  pub rx_submit_empty : ℕ
  pub rx_pool_failures : ℕ
  pub rx_lost : ℕ
  pub rx_arm_count : ℕ
  pub rx_arm_failures : ℕ

pub record Lifecycle : Type 0 where
  pub interface_opened : Bool
  pub mac_address : List ℕ
  pub mac_valid : Bool
  pub stopping : Bool
  pub stop_cancels_pending : ℕ

pub record Driver : Type 0 where
  pub handles : Handles
  pub tx : Transmit
  pub rx : Receive
  pub life : Lifecycle
  pub history : History

-- The state after a call.
abbrev pub record_event : Event → Driver → Driver
record_event e s = record s { history = e ∷ s.history }
