-- ===== src/Driver/Attach/Objects.antt =====
-- dext/SMSC95xxDriver: the objects of DriverKit that an attach takes hold of, and setupDatapath.
use smsc95xx_macos.Base.{ℕ, Bool, true, false, not, ◌||◌, some, List, [], ◌∷◌, if◌then◌else◌, ltb}
use smsc95xx_macos.Driver.Status.{KernReturn, is_success}
use smsc95xx_macos.Driver.Kit.{open_interface}
use smsc95xx_macos.Driver.State.{Handles, record_event}
use smsc95xx_macos.Driver.Tx.{tx_buffer_len}
use smsc95xx_macos.Driver.Attach.{
  Site, Attach, Step, in_turn, with_handles, Resource, control_buffer, bulk_in, bulk_out, rx_memory,
  tx_memory, rx_complete_action, tx_complete_action, doorbell_source, doorbell_action,
  backoff_timer, backoff_action,
}

abbrev pub rx_buffer_len : ℕ
rx_buffer_len = 4096

module _ (site : Site) where
  -- An object whose result alone is tested, stored as `put` says.
  unfoldable pub create : Resource → (Bool → Handles → Handles) → Attach → KernReturn × Attach
  create r put a = let (ret, there) = site.acquire r in (ret, with_handles (put there) a)

  -- An object that must not be null either.
  unfoldable pub copy :
      Resource → KernReturn → (Bool → Handles → Handles) → Attach → KernReturn × Attach
  copy r missing put a =
      let (ret, there) = site.acquire r in
      (if is_success ret then if there then ret else missing else ret, with_handles (put there) a)

  unfoldable pub open_provider : Attach → KernReturn × Attach
  open_provider a =
      let a1 = record a { driver = record_event (open_interface site.open_result) a.driver } in
      if not (is_success site.open_result) then (site.open_result, a1) else (
        KernReturn.success,
        record a1 {
          driver = record a1.driver { life = record a1.driver.life { interface_opened = true } };
        },
      )

  unfoldable pub create_control_buffer : Attach → KernReturn × Attach
  create_control_buffer a =
      let (ret, a1) = create control_buffer (λ b h. record h { ctrl_buffer = b }) a in
      let (range, len) = site.address_range control_buffer in
      if not (is_success ret)
      then (ret, a1)
      else if not (is_success range)
      then (range, a1)
      else if ltb len 4
      then (KernReturn.no_memory, a1)
      else (KernReturn.success, with_handles (λ h. record h { ctrl_bytes = true }) a1)

  -- `allocBuffer`: the result, whether the buffer is there, and whether its bytes are.
  unfoldable pub alloc_buffer : Resource → ℕ → KernReturn × Bool × Bool
  alloc_buffer r size =
      let (ret, there) = site.acquire r in
      let (range, len) = site.address_range r in
      if not (is_success ret)
      then (ret, there, false)
      else if not (is_success range)
      then (range, false, false)
      else if ltb len size
      then (KernReturn.no_memory, false, false)
      else (KernReturn.success, there, true)

  unfoldable pub alloc_rx_buffer : Attach → KernReturn × Attach
  alloc_rx_buffer a =
      let (ret, buffer, bytes) = alloc_buffer rx_memory rx_buffer_len in
      (ret, with_handles (λ h. record h { rx_buffer = buffer; rx_bytes = bytes || h.rx_bytes }) a)

  unfoldable pub alloc_tx_buffer : Attach → KernReturn × Attach
  alloc_tx_buffer a =
      let (ret, buffer, bytes) = alloc_buffer tx_memory tx_buffer_len in
      let a1 = with_handles (λ h. record h { tx_buffer = buffer }) a in
      (
        ret,
        record a1 {
          driver = record a1.driver {
            tx = record a1.driver.tx {
              tx_bytes = if bytes then some site.contents else a1.driver.tx.tx_bytes;
            };
          };
        },
      )

  unfoldable pub open_gate : Attach → KernReturn × Attach
  open_gate a = (
    KernReturn.success,
    record a { driver = record a.driver { tx = record a.driver.tx { tx_datapath_ready = true } } },
  )

  abbrev pub datapath_steps : List Step
  datapath_steps =
      copy bulk_in KernReturn.no_device (λ b h. record h { pipe_in = b })
      ∷ copy bulk_out KernReturn.no_device (λ b h. record h { pipe_out = b })
      ∷ alloc_rx_buffer
      ∷ alloc_tx_buffer
      ∷ create rx_complete_action (λ b h. record h { rx_action = b })
      ∷ create tx_complete_action (λ b h. record h { tx_action = b })
      ∷ copy doorbell_source KernReturn.no_resources (λ b h. record h { tx_data_queue = b })
      ∷ create doorbell_action (λ b h. record h { tx_data_available_action = b })
      ∷ (λ a. (site.set_handler doorbell_source, a))
      ∷ copy backoff_timer KernReturn.no_resources (λ b h. record h { rx_backoff_timer = b })
      ∷ create backoff_action (λ b h. record h { rx_backoff_action = b })
      ∷ (λ a. (site.set_handler backoff_timer, a))
      ∷ (λ a. (site.enable_timer, a))
      ∷ open_gate
      ∷ []

  unfoldable pub setup_datapath : Attach → KernReturn × Attach
  setup_datapath = in_turn datapath_steps
