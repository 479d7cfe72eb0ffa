-- ===== src/Driver/Interface.antt =====
-- dext/SMSC95xxDriver/SMSC95xxDriver.cpp: setInterfaceEnable; and quiesceDatapath, the first phase of
-- teardown, of SMSC95xxDriver_datapath.cpp. Logging is left out, and with it the results that are only
-- logged.
use smsc95xx_macos.Base.{ℕ, ◌+◌, Bool, true, false, not, ◌&&◌, List, [], ◌∷◌, if◌then◌else◌, take}
pub mod Latch
pub mod Enabling
pub mod Keeping
pub mod Quiescing
use smsc95xx_macos.Driver.Status.{KernReturn, is_success}
use smsc95xx_macos.Driver.Kit.{Kit, queue_enable, super_enable, report_link, abort_in, abort_out}
use smsc95xx_macos.Driver.State.{Driver, record_event}
use smsc95xx_macos.Driver.Rx.{arm_rx_read}

-- The four queues by number, and whether each is there.
abbrev pub queues : Driver → List (ℕ × Bool)
queues s =
    (0, s.handles.tx_submit)
    ∷ (1, s.handles.rx_submit)
    ∷ (2, s.handles.tx_complete)
    ∷ (3, s.handles.rx_complete)
    ∷ []

abbrev pub queues_reversed : Driver → List (ℕ × Bool)
queues_reversed s =
    (3, s.handles.rx_complete)
    ∷ (2, s.handles.tx_complete)
    ∷ (1, s.handles.rx_submit)
    ∷ (0, s.handles.tx_submit)
    ∷ []

module _ (kit : Kit) where
  -- The loop of `setEnable (true)`, with `enabledCount`.
  pub enable_queues : List (ℕ × Bool) → ℕ → Driver → KernReturn × ℕ × Driver
  enable_queues [] count s = (KernReturn.success, count, s)
  enable_queues ((i, false) ∷ qs) count s = enable_queues qs (count + 1) s
  enable_queues ((i, true) ∷ qs) count s =
      let ret = kit.enable_queue s.history i true in
      let s1 = record_event (queue_enable i true ret) s in
      let rest = enable_queues qs (count + 1) s1 in
      if is_success ret then rest else (ret, count, s1)

  -- The loops of `setEnable (false)`.
  pub disable_queues : List (ℕ × Bool) → Driver → Driver
  disable_queues [] s = s
  disable_queues ((i, false) ∷ qs) s = disable_queues qs s
  disable_queues ((i, true) ∷ qs) s =
      disable_queues qs (record_event (queue_enable i false (kit.enable_queue s.history i false)) s)

  abbrev pub report_status : Bool → Driver → KernReturn × Driver
  report_status active s =
      let ret = kit.link_status s.history active in (ret, record_event (report_link active ret) s)

  abbrev pub enable_base : Bool → Driver → KernReturn × Driver
  enable_base enable s =
      let ret = kit.enable_super s.history enable in (ret, record_event (super_enable enable ret) s)

  -- From the label `enable_failed` on.
  pub enable_failed : KernReturn → ℕ → Driver → KernReturn × Driver
  enable_failed ret count s =
      let s1 = disable_queues (take count (queues s)) s in
      let s2 = (report_status false s1).1 in (ret, (enable_base false s2).1)

  -- The receive loop is started, and the first read armed.
  pub enable_receive : ℕ → Driver → KernReturn × Driver
  enable_receive count s =
      let s1 = record s {
        rx = record s.rx { rx_running = true; rx_idle_run = 0; rx_backoff_active = false };
      } in
      let (ret, s2) = arm_rx_read kit s1 in
      if is_success ret
      then (KernReturn.success, s2)
      else enable_failed ret count (record s2 { rx = record s2.rx { rx_running = false } })

  pub enable_interface : Driver → KernReturn × Driver
  enable_interface s =
      let (ret, count, s1) = enable_queues (queues s) 0 s in
      let (link, s2) = report_status true s1 in
      if not (is_success ret)
      then enable_failed ret count s1
      else if not (is_success link)
      then enable_failed link count s2
      else enable_receive count s2

  pub disable_interface : Driver → KernReturn × Driver
  disable_interface s =
      let s1 = record s { rx = record s.rx { rx_running = false } } in
      (KernReturn.success, disable_queues (queues_reversed s1) s1)

  pub set_interface_enable : Bool → Driver → KernReturn × Driver
  set_interface_enable enable s =
      if enable && s.life.stopping
      then (KernReturn.offline, s)
      else let (ret, s1) = enable_base enable s in
        if not (is_success ret)
        then (ret, s1)
        else if enable
        then enable_interface s1
        else disable_interface s1

  unfoldable pub quiesce_datapath : Driver → Driver
  quiesce_datapath s =
      let s1 = record s {
        life = record s.life { stopping = true };
        rx = record s.rx { rx_running = false };
        tx = record s.tx { tx_datapath_ready = false };
      } in
      let s2 =
        if s1.handles.pipe_in
        then record_event (abort_in (kit.abort_pipe_in s1.history)) s1
        else s1 in
      if s2.handles.pipe_out
      then record_event (abort_out (kit.abort_pipe_out s2.history)) s2
      else s2
