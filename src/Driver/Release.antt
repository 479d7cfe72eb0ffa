-- ===== src/Driver/Release.antt =====
-- dext/SMSC95xxDriver: releaseDatapath of SMSC95xxDriver_datapath.cpp, ReleaseResources of
-- SMSC95xxDriver.cpp, and the path `fail` of Start. Releasing a reference makes its pointer null.
use smsc95xx_macos.Base.{ℕ, Bool, Option, true, false, none, some, ◌∷◌, ◌&&◌, if◌then◌else◌, incr}
pub mod Packet
pub mod Final
use smsc95xx_macos.Driver.Kit.{Kit, close_interface, super_stop}
use smsc95xx_macos.Driver.State.{Driver, Handles, record_event}
use smsc95xx_macos.Driver.Tx.{tx_return_packet}
use smsc95xx_macos.Driver.Interface.{quiesce_datapath}
use smsc95xx_macos.Driver.Teardown.{Teardown, begin_stop}

-- Up to the buffers.
abbrev pub drop_datapath : Driver → Driver
drop_datapath s = record s {
  handles = record s.handles {
    rx_backoff_action = false;
    rx_backoff_timer = false;
    tx_data_available_action = false;
    tx_data_queue = false;
    rx_action = false;
    tx_action = false;
    pipe_in = false;
    pipe_out = false;
    rx_bytes = false;
    rx_buffer = false;
    tx_buffer = false;
  };
  rx = record s.rx { rx_backoff_active = false; rx_idle_run = 0 };
  tx = record s.tx { tx_bytes = none };
}

-- The queues, the pool, and the rest.
abbrev pub drop_handles : Driver → Driver
drop_handles s = record s {
  handles = record s.handles {
    tx_submit = false;
    rx_submit = false;
    tx_complete = false;
    rx_complete = false;
    pool = false;
    interface = false;
    ctrl_bytes = false;
    ctrl_buffer = false;
    dispatch_queue = false;
  };
}

-- The interface is closed if it is there and was opened.
abbrev pub close_opened : Driver → Driver
close_opened s =
    if s.handles.interface && s.life.interface_opened
    then record s {
      life = record s.life { interface_opened = false };
      history = close_interface ∷ s.history;
    }
    else s

module _ (kit : Kit) where
  -- The packet that is still in flight, if there is one: it is forgotten before it is handed back.
  pub release_packet : Option ℕ → Driver → Driver
  release_packet none s =
      if s.tx.tx_in_flight
      then record s { tx = record s.tx { tx_in_flight = false; tx_lost = incr s.tx.tx_lost } }
      else s
  release_packet (some p) s =
      tx_return_packet kit (some p)
        (record s { tx = record s.tx { tx_packet = none; tx_in_flight = false } })

  pub release_datapath : Driver → Driver
  release_datapath s =
      let t = release_packet s.tx.tx_packet (drop_datapath s) in
      record t { rx = record t.rx { rx_armed = false } }

  pub release_resources : Driver → Driver
  release_resources s = drop_handles (close_opened (release_datapath s))

  -- From the label `fail` on.
  unfoldable pub start_failed : Driver → Driver
  start_failed s = record_event super_stop (release_resources (quiesce_datapath kit s))

  -- `Stop`, up to the first cancellation.
  unfoldable pub stop : Driver → Driver × Teardown
  stop s = let t = quiesce_datapath kit s in (t, begin_stop t.handles)
