-- ===== src/Driver/Attach/Start.antt =====
-- dext/SMSC95xxDriver/SMSC95xxDriver.cpp: Start.
use smsc95xx_macos.Base.{true, false, none, not, List, [], ◌∷◌, if◌then◌else◌}
use smsc95xx_macos.Driver.Status.{KernReturn, is_success}
use smsc95xx_macos.Driver.Kit.{report_link, super_stop}
use smsc95xx_macos.Driver.State.{Driver, record_event}
use smsc95xx_macos.Driver.Interface.{quiesce_datapath}
use smsc95xx_macos.Driver.Release.{start_failed}
use smsc95xx_macos.Driver.Teardown.{Teardown, begin_stop}
use smsc95xx_macos.Driver.Attach.{
  Site, Attach, Step, in_turn, with_handles, dispatch_queue, packet_pool, tx_submission_queue,
  tx_completion_queue, rx_submission_queue, rx_completion_queue,
}
use smsc95xx_macos.Driver.Attach.Chip.{
  read_chip_id, read_phy_id, check_phy, find_mac, publish_mac, init_chip,
}
use smsc95xx_macos.Driver.Attach.Objects.{
  create, copy, open_provider, create_control_buffer, setup_datapath,
}

-- `init`: the instance variables are zeroed.
abbrev pub new_driver : Driver
new_driver = record {
  handles = record {
    interface = false;
    ctrl_buffer = false;
    ctrl_bytes = false;
    dispatch_queue = false;
    pool = false;
    tx_submit = false;
    rx_submit = false;
    tx_complete = false;
    rx_complete = false;
    pipe_in = false;
    pipe_out = false;
    rx_buffer = false;
    rx_bytes = false;
    tx_buffer = false;
    rx_action = false;
    tx_action = false;
    tx_data_queue = false;
    tx_data_available_action = false;
    rx_backoff_timer = false;
    rx_backoff_action = false;
  };
  tx = record {
    tx_bytes = none;
    tx_in_flight = false;
    tx_packet = none;
    tx_datapath_ready = false;
    in_tx_data_available = false;
    in_tx_complete = false;
    tx_frames = 0;
    tx_errors = 0;
    tx_doorbells = 0;
    tx_drains = 0;
    tx_dequeued = 0;
    tx_submitted = 0;
    tx_completions = 0;
    tx_returned = 0;
    tx_lost = 0;
    tx_bytes_sent = 0;
    tx_rejected = 0;
    tx_submit_failures = 0;
    tx_stalls = 0;
    tx_aborted = 0;
    tx_deferred = 0;
  };
  rx = record {
    in_rx_complete = false;
    rx_armed = false;
    rx_running = false;
    rx_idle_run = 0;
    rx_backoff_active = false;
    rx_backoff_episodes = 0;
    rx_backoff_wakes = 0;
    rx_frames = 0;
    rx_dropped = 0;
    rx_completions = 0;
    rx_completion_errors = 0;
    rx_zero_length = 0;
    rx_byte_count = 0;
    rx_records = 0;
    rx_zero_records = 0;
    rx_drop_err_sum = 0;
    rx_drop_short = 0;
    rx_drop_oversize = 0;
    rx_drop_no_buffer = 0;
    rx_drop_bad_addr = 0;
    rx_drop_bad_fit = 0;
    rx_drop_set_len = 0;
    rx_drop_enqueue = 0;
    rx_enqueue_failures = 0;
    rx_submit_dequeued = 0;
    rx_submit_empty = 0;
    rx_pool_failures = 0;
    rx_lost = 0;
    rx_arm_count = 0;
    rx_arm_failures = 0;
  };
  life = record {
    interface_opened = false;
    mac_address = 0 ∷ 0 ∷ 0 ∷ 0 ∷ 0 ∷ 0 ∷ [];
    mac_valid = false;
    stopping = false;
    stop_cancels_pending = 0;
  };
  history = [];
}

-- The state that `Start` finds.
abbrev pub new_attach : Attach
new_attach = record { driver = new_driver; trace = []; published = []; registered = [] }

-- How `Start` ends: it returns, or returns with the teardown of `finishStop` begun.
pub data StartEnd : Type 0 where
  returned : KernReturn → Attach → StartEnd
  unwinding : KernReturn → Attach → Teardown → StartEnd

-- What holds of either end.
abbrev pub Ends :
    (KernReturn → Attach → Type 0) → (KernReturn → Attach → Teardown → Type 0) → StartEnd → Type 0
Ends P Q (returned ret a) = P ret a
Ends P Q (unwinding ret a t) = Q ret a t

module _ (site : Site) where
  -- What is asked of DriverKit once the chip runs.
  abbrev pub object_steps : List Step
  object_steps =
      copy site dispatch_queue KernReturn.no_resources (λ b h. record h { dispatch_queue = b })
      ∷ create site packet_pool (λ b h. record h { pool = b })
      ∷ create site tx_submission_queue (λ b h. record h { tx_submit = b })
      ∷ create site tx_completion_queue (λ b h. record h { tx_complete = b })
      ∷ create site rx_submission_queue (λ b h. record h { rx_submit = b })
      ∷ create site rx_completion_queue (λ b h. record h { rx_complete = b })
      ∷ setup_datapath site
      ∷ []

  -- What follows `Open`.
  abbrev pub opened_steps : List Step
  opened_steps =
      create_control_buffer site
      ∷ read_chip_id site
      ∷ read_phy_id site
      ∷ check_phy site
      ∷ find_mac site
      ∷ publish_mac site
      ∷ init_chip site
      ∷ object_steps

  abbrev pub start_steps : List Step
  start_steps = open_provider site ∷ opened_steps

  -- From `registerEthernetInterface` on.
  unfoldable pub register_interface : Attach → StartEnd
  register_interface a =
      let mac = a.driver.life.mac_address in
      let ret = site.register_ethernet mac in
      let a1 = record a { registered = mac ∷ a.registered } in
      if not (is_success ret)
      then (let s = quiesce_datapath site.kit a1.driver in
          unwinding ret (record a1 { driver = s }) (begin_stop s.handles))
      else let link = site.kit.link_status a1.driver.history true in
        returned KernReturn.success
          (record a1 { driver = record_event (report_link true link) a1.driver })

  -- With the provider cast.
  unfoldable pub start_on_interface : Attach → StartEnd
  start_on_interface a0 =
      let (ret, a) = in_turn start_steps a0 in
      if not (is_success ret)
      then returned ret (record a { driver = start_failed site.kit a.driver })
      else register_interface a

  unfoldable pub start : Attach → StartEnd
  start a =
      if not (is_success site.super_start)
      then returned site.super_start a
      else if not site.is_interface
      then returned KernReturn.no_device (record a { driver = record_event super_stop a.driver })
      else start_on_interface (with_handles (λ h. record h { interface = true }) a)
