-- ===== src/Tests/Serving.antt =====
-- A service at a concrete site: the attach succeeds, Stop is called, and each Cancel is refused.
use smsc95xx_macos.Base.{ℕ, ◌≡◌, refl, ap, true, not, none, some, ◌∷◌, if-false, subst}
use smsc95xx_macos.Init.{
  write_all, poll_clear, reset_phy, init_run, eeprom_byte, eeprom_bytes, eeprom_run, init_checked,
  init_seq, eeprom_checked, eeprom_read,
}
use smsc95xx_macos.Proto.Words.{
  mii_addr_word, e2p_read_cmd, id_rev_split, eeprom_sig_valid, bmsr_autoneg_capable,
}
use smsc95xx_macos.Proto.Mac.{mac_to_regs, scan_octets, mac_plausible}
use smsc95xx_macos.Driver.Status.{KernReturn, is_success}
use smsc95xx_macos.Driver.Control.{
  register_bytes, register_value, read_register, write_register, control_io,
  shared_result_to_io_return, wait_clear, mii_data, mii_read,
}
use smsc95xx_macos.Driver.State.{Driver, record_event}
use smsc95xx_macos.Driver.Kit.{report_link}
use smsc95xx_macos.Driver.Interface.{quiesce_datapath}
use smsc95xx_macos.Driver.Release.{stop}
use smsc95xx_macos.Driver.Teardown.{Teardown, begin_stop, cancel_count, finalize, cancel_refused}
use smsc95xx_macos.Driver.Attach.{Attach, in_turn, with_handles}
use smsc95xx_macos.Driver.Attach.Chip.{
  publish_property, read_chip_id, read_phy_id, check_phy, read_eeprom, accept_mac, read_mac,
  check_signature, find_mac, publish_mac, init_chip,
}
use smsc95xx_macos.Driver.Attach.Objects.{
  create, copy, open_provider, create_control_buffer, alloc_buffer, alloc_rx_buffer,
  alloc_tx_buffer, open_gate, setup_datapath,
}
use smsc95xx_macos.Driver.Attach.Start.{
  start_steps, returned, register_interface, start_on_interface, start, new_attach,
}
use smsc95xx_macos.Driver.Life.{Life, attached, stopped, cancelled, release_when_due}
use smsc95xx_macos.Driver.Life.Settling.{Ended}
use smsc95xx_macos.Driver.Service.{Service, serving}
use smsc95xx_macos.Driver.Service.Ending.{Service-Ended}
use smsc95xx_macos.Tests.Attaching.{good_site, asked_byte}

abbrev found : Attach
found = with_handles (λ h. record h { interface = true }) new_attach

steps_succeed : (in_turn (start_steps good_site) found).0 ≡ KernReturn.success
unfolding in_turn create copy open_provider create_control_buffer alloc_buffer alloc_rx_buffer
    alloc_tx_buffer open_gate setup_datapath publish_property read_chip_id read_phy_id check_phy
    read_eeprom accept_mac read_mac check_signature find_mac publish_mac init_chip register_bytes
    register_value read_register write_register control_io shared_result_to_io_return wait_clear
    mii_data mii_read write_all poll_clear reset_phy init_run eeprom_byte eeprom_bytes eeprom_run
    init_checked init_seq eeprom_checked eeprom_read mii_addr_word e2p_read_cmd id_rev_split
    eeprom_sig_valid bmsr_autoneg_capable mac_to_regs scan_octets mac_plausible is_success
    asked_byte
steps_succeed = refl

-- The attach, up to the registration; and once the link was reported.
abbrev ready : Attach
ready = (in_turn (start_steps good_site) found).1

abbrev attached_driver : Driver
attached_driver =
    record_event (report_link true (good_site.kit.link_status ready.driver.history true))
      ready.driver

abbrev registered : Attach
registered = record ready {
  registered = ready.driver.life.mac_address ∷ ready.registered;
  driver = attached_driver;
}

good_start : start good_site new_attach ≡ returned KernReturn.success registered
unfolding start start_on_interface register_interface is_success
good_start =
    if-false (not (is_success (in_turn (start_steps good_site) found).0)) _ _
      (ap (λ r. not (is_success r)) steps_succeed)

-- Stop is called at once: all four Cancels are to come, and each is refused.
abbrev countdown : ℕ → Teardown
countdown n = record { pending = n; to_cancel = n; waiting = 0; releases = 0; stops = 0 }

abbrev all_done : Teardown
all_done = record { pending = 0; to_cancel = 0; waiting = 0; releases = 1; stops = 1 }

abbrev begun_stop : Driver × Teardown
begun_stop = stop good_site.kit attached_driver

four_sources : begun_stop.1 ≡ countdown 4
unfolding stop begin_stop cancel_count quiesce_datapath in_turn create copy open_provider
    create_control_buffer alloc_buffer alloc_rx_buffer alloc_tx_buffer open_gate setup_datapath
    publish_property read_chip_id read_phy_id check_phy read_eeprom accept_mac read_mac
    check_signature find_mac publish_mac init_chip register_bytes register_value read_register
    write_register control_io shared_result_to_io_return wait_clear mii_data mii_read write_all
    poll_clear reset_phy init_run eeprom_byte eeprom_bytes eeprom_run init_checked init_seq
    eeprom_checked eeprom_read mii_addr_word e2p_read_cmd id_rev_split eeprom_sig_valid
    bmsr_autoneg_capable mac_to_regs scan_octets mac_plausible is_success asked_byte
four_sources = refl

abbrev Served : Teardown → Driver → Type 0
Served x s = Life good_site.kit none attached_driver (some x) s

abbrev stopping : Driver
stopping = release_when_due good_site.kit 0 (countdown 4) begun_stop.0

stopping-Life : Served (countdown 4) stopping
stopping-Life =
    subst (λ x. Served x (release_when_due good_site.kit 0 x begun_stop.0)) four_sources
      (stopped attached_driver attached)

-- The state after a Cancel that is refused.
abbrev refusing : Teardown → Driver → Driver
refusing y s = release_when_due good_site.kit 0 y s

abbrev ended_driver : Driver
ended_driver =
    refusing all_done
      (refusing (countdown 1) (refusing (countdown 2) (refusing (countdown 3) stopping)))

ended-Life : Served all_done ended_driver
unfolding finalize
ended-Life =
    let s3 = refusing (countdown 3) stopping in
    let s2 = refusing (countdown 2) s3 in
    let s1 = refusing (countdown 1) s2 in
    cancelled (countdown 1) all_done s1
      (cancelled (countdown 2) (countdown 1) s2
        (cancelled (countdown 3) (countdown 2) s3
          (cancelled (countdown 4) (countdown 3) stopping stopping-Life
            (cancel_refused (countdown 4) 3 refl))
          (cancel_refused (countdown 3) 2 refl))
        (cancel_refused (countdown 2) 1 refl))
      (cancel_refused (countdown 1) 0 refl)

ended-Service : Service good_site (some all_done) ended_driver
unfolding is_success
ended-Service =
    serving KernReturn.success registered (some all_done) ended_driver good_start refl ended-Life

Service-Ended_example :
    (all_done.stops ≡ 1) × (all_done.releases ≡ 1) × Ended good_site.kit ended_driver
Service-Ended_example = Service-Ended good_site all_done ended_driver ended-Service refl refl
