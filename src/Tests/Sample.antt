-- ===== src/Tests/Sample.antt =====
-- A concrete environment, and states of the driver.
use smsc95xx_macos.Base.{
  ℕ, ◌+◌, true, false, none, some, List, [], ◌∷◌, ◌++◌, if◌then◌else◌, ltb, replicate,
}
use smsc95xx_macos.Proto.Tx.Header.{header}
use smsc95xx_macos.Driver.Status.{KernReturn}
use smsc95xx_macos.Driver.Kit.{Kit, History, tx_dequeue, async_out, async_in, rx_dequeue}
use smsc95xx_macos.Driver.State.{Driver}

-- How many packets were asked for.
unfoldable pub asked : History → ℕ
asked [] = 0
asked (tx_dequeue n p ∷ h) = asked h + 1
asked (rx_dequeue n p ∷ h) = asked h + 1
asked (_ ∷ h) = asked h

-- Three packets are queued each way, of 60 bytes each; every call succeeds.
abbrev pub sample_kit : Kit
sample_kit = record {
  dequeue_tx = λ h. if ltb (asked h) 3 then (1, some (asked h)) else (0, none);
  enqueue_tx = λ h p. KernReturn.success;
  write_out = λ h b. KernReturn.success;
  read_in = λ h. KernReturn.success;
  dequeue_rx = λ h. if ltb (asked h) 3 then (1, some (asked h)) else (0, none);
  enqueue_rx = λ h p. KernReturn.success;
  allocate = λ h. (KernReturn.no_memory, none);
  deallocate = λ h p. KernReturn.success;
  set_data_length = λ h p n. KernReturn.success;
  data_length = λ h p. 60;
  data_off = λ h p. 16;
  data_address = λ h p. 0x200000;
  memory = λ h a. 0xAB;
  wake = λ h d. KernReturn.success;
  clock = λ h. 5;
  abort_pipe_in = λ h. KernReturn.aborted;
  abort_pipe_out = λ h. KernReturn.aborted;
  enable_queue = λ h q b. KernReturn.success;
  enable_super = λ h b. KernReturn.success;
  link_status = λ h b. KernReturn.success;
}

-- Attached and enabled, with packet 0 in flight and a read outstanding.
abbrev pub running : Driver
running = record {
  handles = record {
    interface = true;
    ctrl_buffer = true;
    ctrl_bytes = true;
    dispatch_queue = true;
    pool = true;
    tx_submit = true;
    rx_submit = true;
    tx_complete = true;
    rx_complete = true;
    pipe_in = true;
    pipe_out = true;
    rx_buffer = true;
    rx_bytes = true;
    tx_buffer = true;
    rx_action = true;
    tx_action = true;
    tx_data_queue = true;
    tx_data_available_action = true;
    rx_backoff_timer = true;
    rx_backoff_action = true;
  };
  tx = record {
    tx_bytes = some (replicate 1526 0);
    tx_in_flight = true;
    tx_packet = some 0;
    tx_datapath_ready = true;
    in_tx_data_available = false;
    in_tx_complete = false;
    tx_frames = 0;
    tx_errors = 0;
    tx_doorbells = 0;
    tx_drains = 0;
    tx_dequeued = 1;
    tx_submitted = 0;
    tx_completions = 0;
    tx_returned = 0;
    tx_lost = 0;
    tx_bytes_sent = 0;
    tx_rejected = 0;
    tx_submit_failures = 0;
    tx_stalls = 0;
    tx_aborted = 0;
    tx_deferred = 0;
  };
  rx = record {
    in_rx_complete = false;
    rx_armed = true;
    rx_running = true;
    rx_idle_run = 0;
    rx_backoff_active = false;
    rx_backoff_episodes = 0;
    rx_backoff_wakes = 0;
    rx_frames = 0;
    rx_dropped = 0;
    rx_completions = 0;
    rx_completion_errors = 0;
    rx_zero_length = 0;
    rx_byte_count = 0;
    rx_records = 0;
    rx_zero_records = 0;
    rx_drop_err_sum = 0;
    rx_drop_short = 0;
    rx_drop_oversize = 0;
    rx_drop_no_buffer = 0;
    rx_drop_bad_addr = 0;
    rx_drop_bad_fit = 0;
    rx_drop_set_len = 0;
    rx_drop_enqueue = 0;
    rx_enqueue_failures = 0;
    rx_submit_dequeued = 0;
    rx_submit_empty = 0;
    rx_pool_failures = 0;
    rx_lost = 0;
    rx_arm_count = 0;
    rx_arm_failures = 0;
  };
  life = record {
    interface_opened = true;
    mac_address = 2 ∷ 0 ∷ 0 ∷ 0 ∷ 0 ∷ 1 ∷ [];
    mac_valid = true;
    stopping = false;
    stop_cancels_pending = 0;
  };
  history =
      async_in KernReturn.success
      ∷ async_out (header 60 ++ replicate 60 0xAB) KernReturn.success
      ∷ tx_dequeue 1 (some 0)
      ∷ [];
}

-- The same, with nothing taken or sent.
abbrev pub fresh : Driver
fresh = record running {
  tx = record running.tx { tx_in_flight = false; tx_packet = none; tx_dequeued = 0 };
  rx = record running.rx { rx_armed = false };
  history = [];
}

-- The same, with the datapath closed and receive stopped.
abbrev pub closed : Driver
closed = record fresh {
  tx = record fresh.tx { tx_datapath_ready = false };
  rx = record fresh.rx { rx_running = false };
  life = record fresh.life { stopping = true };
}

-- The same, after eight empty completions.
abbrev pub idle : Driver
idle = record fresh { rx = record fresh.rx { rx_idle_run = 8 } }

-- A transfer of one record: a status word for 64 bytes, and 60 bytes with their CRC.
abbrev pub transfer : List ℕ
transfer = 0 ∷ 0 ∷ 64 ∷ 0 ∷ replicate 64 0x5A
