-- ===== src/Driver/Attach/Apart.antt =====
-- The steps after the bring-up leave the address and the chip alone, so both hold at the end.
use smsc95xx_macos.Base.{◌≡◌, refl, true, [], ◌∷◌, arith}
use smsc95xx_macos.Driver.Status.{is_success}
use smsc95xx_macos.Driver.State.{Lifecycle}
use smsc95xx_macos.Init.{Trace}
use smsc95xx_macos.Driver.Attach.{Site, Attach, in_turn}
use smsc95xx_macos.Driver.Attach.Chip.{
  publish_property, read_chip_id, read_phy_id, check_phy, find_mac, publish_mac, init_chip,
}
use smsc95xx_macos.Driver.Attach.Objects.{
  create, copy, open_provider, create_control_buffer, alloc_rx_buffer, alloc_tx_buffer, open_gate,
  datapath_steps, setup_datapath,
}
use smsc95xx_macos.Driver.Attach.Start.{object_steps, start_steps}
use smsc95xx_macos.Driver.Attach.Kept.{EachKeeps, in_turn_inv, in_turn_from}
use smsc95xx_macos.Driver.Attach.Provenance.{
  Known, Programmed, find_mac-Known, init_chip-Programmed,
}

module _ (site : Site) where
  -- The steps after the bring-up leave the lifecycle and the chip alone.
  module _ (J : Lifecycle → Trace → Type 0) where
    abbrev Apart : Attach → Type 0
    Apart a = J a.driver.life a.trace

    setup-Apart : (a : Attach) → Apart a → Apart (setup_datapath site a).1
    unfolding setup_datapath EachKeeps copy create alloc_rx_buffer alloc_tx_buffer open_gate
    setup-Apart a j =
        in_turn_inv Apart (datapath_steps site)
          (
            (λ b i. i),
            (
              (λ b i. i),
              (
                (λ b i. i),
                (
                  (λ b i. i),
                  (
                    (λ b i. i),
                    (
                      (λ b i. i),
                      (
                        (λ b i. i),
                        (
                          (λ b i. i),
                          (
                            (λ b i. i),
                            (
                              (λ b i. i),
                              ((λ b i. i), ((λ b i. i), ((λ b i. i), ((λ b i. i), tt)))),
                            ),
                          ),
                        ),
                      ),
                    ),
                  ),
                ),
              ),
            ),
          )
          a j

    objects-Apart : EachKeeps Apart (object_steps site)
    unfolding EachKeeps copy create
    objects-Apart = (
      (λ b i. i),
      ((λ b i. i), ((λ b i. i), ((λ b i. i), ((λ b i. i), ((λ b i. i), (setup-Apart, tt)))))),
    )

  publish_mac-life : (a : Attach) → (publish_mac site a).1.driver.life ≡ a.driver.life
  unfolding publish_mac publish_property
  publish_mac-life a = ground arith

  init_chip-life : (a : Attach) → (init_chip site a).1.driver.life ≡ a.driver.life
  unfolding init_chip
  init_chip-life a = refl

  pub steps-Known :
      (a : Attach)
      → is_success (in_turn (start_steps site) a).0 ≡ true
      → Known site (in_turn (start_steps site) a).1.driver.life
  unfolding EachKeeps
  steps-Known =
      in_turn_from (λ b. Known site b.driver.life)
        (open_provider site
          ∷ create_control_buffer site
          ∷ read_chip_id site
          ∷ read_phy_id site
          ∷ check_phy site
          ∷ [])
        (find_mac site) (publish_mac site ∷ init_chip site ∷ object_steps site)
        (find_mac-Known site)
        (
          (λ b k. rw (publish_mac-life b) k),
          ((λ b k. rw (init_chip-life b) k), objects-Apart (λ life t. Known site life)),
        )

  pub steps-Programmed :
      (a : Attach)
      → is_success (in_turn (start_steps site) a).0 ≡ true
      → Programmed
          (in_turn (start_steps site) a).1.driver.life
          (in_turn (start_steps site) a).1.trace
  steps-Programmed =
      in_turn_from (λ b. Programmed b.driver.life b.trace)
        (open_provider site
          ∷ create_control_buffer site
          ∷ read_chip_id site
          ∷ read_phy_id site
          ∷ check_phy site
          ∷ find_mac site
          ∷ publish_mac site
          ∷ [])
        (init_chip site) (object_steps site) (init_chip-Programmed site) (objects-Apart Programmed)
