-- ===== src/Driver/Attach/Early.antt =====
-- No step before the registration takes a packet or registers anything, and the interface is closed as
-- often as the books say.
use smsc95xx_macos.Base.{◌||◌, ◌≡◌, ◌∙◌, refl, Bool, true, false, not, if-cases, ltb, arith}
use smsc95xx_macos.Driver.Status.{KernReturn, is_success}
use smsc95xx_macos.Driver.State.{Handles}
use smsc95xx_macos.Driver.Tx.Ledger.{transmit_calls}
use smsc95xx_macos.Driver.Attach.{Site, Attach, Resource, control_buffer, rx_memory, with_handles}
use smsc95xx_macos.Driver.Attach.Objects.{
  rx_buffer_len, create, copy, open_provider, create_control_buffer, alloc_buffer, alloc_rx_buffer,
  alloc_tx_buffer, open_gate, datapath_steps, setup_datapath,
}
use smsc95xx_macos.Driver.Attach.Start.{opened_steps}
use smsc95xx_macos.Driver.Attach.Untouched.{
  Untouched-Early, read_chip_id-Chip, read_phy_id-Chip, check_phy-Chip, find_mac-Chip,
  publish_mac-Chip, init_chip-Chip,
}
use smsc95xx_macos.Driver.Attach.Kept.{EachKeeps, in_turn_inv, opens, closes, Early}

module _ (site : Site) where
  create-Early :
      (r : Resource) (put : Bool → Handles → Handles)
      → ((b : Bool) (h : Handles) → (put b h).interface ≡ h.interface)
      → (a : Attach) → Early a
      → Early (create site r put a).1
  unfolding create
  create-Early r put same a e = record {
    unsent = e.unsent;
    packet = e.packet;
    idle = e.idle;
    counts = e.counts;
    opened = λ o. same _ a.driver.handles ∙ e.opened o;
    balance = e.balance;
    unregistered = e.unregistered;
  }

  copy-Early :
      (r : Resource) (missing : KernReturn) (put : Bool → Handles → Handles)
      → ((b : Bool) (h : Handles) → (put b h).interface ≡ h.interface)
      → (a : Attach) → Early a
      → Early (copy site r missing put a).1
  unfolding copy
  copy-Early r missing put same a e = record {
    unsent = e.unsent;
    packet = e.packet;
    idle = e.idle;
    counts = e.counts;
    opened = λ o. same _ a.driver.handles ∙ e.opened o;
    balance = e.balance;
    unregistered = e.unregistered;
  }

  pub open_provider-Early :
      (a : Attach)
      → (a.driver.handles.interface ≡ true) × (a.driver.life.interface_opened ≡ false)
      → Early a
      → Early (open_provider site a).1
  unfolding open_provider transmit_calls opens closes
  open_provider-Early a (there, shut) e =
      if-cases (λ (o : KernReturn × Attach). Early o.1) (not (is_success site.open_result)) _ _
        (λ bad. record {
          unsent = e.unsent;
          packet = e.packet;
          idle = e.idle;
          counts = e.counts;
          opened = e.opened;
          balance = ground (arith, e.balance, bad);
          unregistered = e.unregistered;
        })
        (λ ok. record {
          unsent = e.unsent;
          packet = e.packet;
          idle = e.idle;
          counts = e.counts;
          opened = λ o. there;
          balance = ground (arith, e.balance, ok, shut);
          unregistered = e.unregistered;
        })

  -- A change of the handles that leaves the interface alone.
  rehandled :
      (f : Handles → Handles) (a : Attach)
      → (f a.driver.handles).interface ≡ a.driver.handles.interface
      → Early a
      → Early (with_handles f a)
  rehandled f a same e = record {
    unsent = e.unsent;
    packet = e.packet;
    idle = e.idle;
    counts = e.counts;
    opened = λ o. same ∙ e.opened o;
    balance = e.balance;
    unregistered = e.unregistered;
  }

  create_control_buffer-Early : (a : Attach) → Early a → Early (create_control_buffer site a).1
  unfolding create_control_buffer create
  create_control_buffer-Early a e =
      let P = λ (o : KernReturn × Attach). Early o.1 in
      let (ret, there) = site.acquire control_buffer in
      let (range, len) = site.address_range control_buffer in
      let e1 = rehandled (λ h. record h { ctrl_buffer = there }) a refl e in
      if-cases P (not (is_success ret)) _ _ (λ _. e1)
        (λ _.
          if-cases P (not (is_success range)) _ _ (λ _. e1)
            (λ _.
              if-cases P (ltb len 4) _ _ (λ _. e1)
                (λ _.
                  rehandled (λ h. record h { ctrl_bytes = true })
                    (with_handles (λ h. record h { ctrl_buffer = there }) a) refl e1)))

  alloc_rx_buffer-Early : (a : Attach) → Early a → Early (alloc_rx_buffer site a).1
  unfolding alloc_rx_buffer
  alloc_rx_buffer-Early a e =
      let (ret, buffer, bytes) = alloc_buffer site rx_memory rx_buffer_len in
      rehandled (λ h. record h { rx_buffer = buffer; rx_bytes = bytes || h.rx_bytes }) a refl e

  alloc_tx_buffer-Early : (a : Attach) → Early a → Early (alloc_tx_buffer site a).1
  unfolding alloc_tx_buffer
  alloc_tx_buffer-Early a e = record {
    unsent = e.unsent;
    packet = e.packet;
    idle = e.idle;
    counts = e.counts;
    opened = e.opened;
    balance = e.balance;
    unregistered = e.unregistered;
  }

  open_gate-Early : (a : Attach) → Early a → Early (open_gate site a).1
  unfolding open_gate
  open_gate-Early a e = record {
    unsent = e.unsent;
    packet = e.packet;
    idle = e.idle;
    counts = e.counts;
    opened = e.opened;
    balance = e.balance;
    unregistered = e.unregistered;
  }

  setup_datapath-Early : (a : Attach) → Early a → Early (setup_datapath site a).1
  unfolding setup_datapath EachKeeps
  setup_datapath-Early a e =
      in_turn_inv Early (datapath_steps site)
        (
          copy-Early _ _ _ (λ b h. refl),
          (
            copy-Early _ _ _ (λ b h. refl),
            (
              alloc_rx_buffer-Early,
              (
                alloc_tx_buffer-Early,
                (
                  create-Early _ _ (λ b h. refl),
                  (
                    create-Early _ _ (λ b h. refl),
                    (
                      copy-Early _ _ _ (λ b h. refl),
                      (
                        create-Early _ _ (λ b h. refl),
                        (
                          (λ b i. i),
                          (
                            copy-Early _ _ _ (λ b h. refl),
                            (
                              create-Early _ _ (λ b h. refl),
                              ((λ b i. i), ((λ b i. i), (open_gate-Early, (tt)))),
                            ),
                          ),
                        ),
                      ),
                    ),
                  ),
                ),
              ),
            ),
          ),
        )
        a e

  -- The steps after the interface was opened.
  pub opened_steps-Early : EachKeeps Early (opened_steps site)
  unfolding EachKeeps
  opened_steps-Early = (
    create_control_buffer-Early,
    (
      (λ a. Untouched-Early a _ (read_chip_id-Chip site a)),
      (
        (λ a. Untouched-Early a _ (read_phy_id-Chip site a)),
        (
          (λ a. Untouched-Early a _ (check_phy-Chip site a)),
          (
            (λ a. Untouched-Early a _ (find_mac-Chip site a)),
            (
              (λ a. Untouched-Early a _ (publish_mac-Chip site a)),
              (
                (λ a. Untouched-Early a _ (init_chip-Chip site a)),
                (
                  copy-Early _ _ _ (λ b h. refl),
                  (
                    create-Early _ _ (λ b h. refl),
                    (
                      create-Early _ _ (λ b h. refl),
                      (
                        create-Early _ _ (λ b h. refl),
                        (
                          create-Early _ _ (λ b h. refl),
                          (create-Early _ _ (λ b h. refl), (setup_datapath-Early, (tt))),
                        ),
                      ),
                    ),
                  ),
                ),
              ),
            ),
          ),
        ),
      ),
    ),
  )
