-- ===== src/Tests/Commanding.antt =====
-- The probe at a concrete device: its EEPROM carries the address 02:00:00:00:00:01, its interface has a
-- pipe in and a pipe out, the third read gives a transfer of one frame.
use smsc95xx_macos.Base.{
  ℕ, ◌≡◌, ◌↔◌, refl, true, none, some, List, [], ◌∷◌, if◌then◌else◌, ◌==◌, replicate, ltb, arith,
}
use mathlib.Core.List.{Permᴰ}
use smsc95xx_macos.Driver.Status.{KernReturn}
use smsc95xx_macos.Probe.Args.{tx, subcommand_of, parse_args, opt_mac}
use smsc95xx_macos.Probe.Args.Render.{Item, device_item, mac_item, command_item, render}
use smsc95xx_macos.Probe.Args.Storing.{item_of}
use smsc95xx_macos.Probe.Args.Order.{parse_args_iff}
use smsc95xx_macos.Probe.Backend.Claim
use smsc95xx_macos.Probe.Device.{DeviceService, Matching}
use smsc95xx_macos.Probe.Commands.{World, Link, cmd_init, cmd_tx, cmd_rx}
use smsc95xx_macos.Probe.Commands.Sending.{Sent, cmd_tx-Sent}
use smsc95xx_macos.Probe.Commands.Receiving.{Listened, cmd_rx-Listened}
use smsc95xx_macos.Probe.Commands.Waiting.{FitsBuffer}
use smsc95xx_macos.Probe.Commands.Initialising.{Initialised, cmd_init-Initialised}
use smsc95xx_macos.Probe.Main.{Exit, new_link, main}
use smsc95xx_macos.Probe.Main.Closing.{Exited, main-Exited}
use smsc95xx_macos.Reenumerate
use smsc95xx_macos.Reenumerate.{Answers, Finished, main-Finished}
use smsc95xx_macos.Tests.Attaching.{sample_pipe}
use smsc95xx_macos.Tests.Claiming.{pipes_interface}

-- A status word for 8 bytes, and these.
abbrev one_frame : List ℕ
one_frame = 0 ∷ 0 ∷ 8 ∷ 0 ∷ replicate 8 0xAB

abbrev sample_world : World
sample_world = record {
  pipe = sample_pipe;
  iterator = KernReturn.success;
  interfaces = pipes_interface KernReturn.success 3 ∷ [];
  scan_mac = λ s. (6, 2 ∷ 0 ∷ 0 ∷ 0 ∷ 0 ∷ 5 ∷ []);
  write_pipe = λ p bytes. KernReturn.success;
  read_pipe =
      λ n. if ltb n 2 then (KernReturn.timeout, 0, []) else (KernReturn.success, 12, one_frame);
  xfer = replicate 50 0xEE;
}

abbrev sample_service : DeviceService
sample_service = record {
  queried = true;
  open_result = KernReturn.success;
  configuration = (KernReturn.success, 0);
  set_result = KernReturn.success;
  allocated = true;
}

abbrev sample_matching : Matching
sample_matching = record {
  created = true;
  result = KernReturn.success;
  services = sample_service ∷ [];
}

abbrev sample_bus : ℕ → ℕ → Matching
sample_bus vid pid =
    if pid == 0x9E00
    then sample_matching
    else record { created = true; result = KernReturn.success; services = [] }

-- A device that agrees to enumerate again.
abbrev sample_answers : Answers
sample_answers = record {
  matched = true;
  services = KernReturn.success;
  service = true;
  plugin = true;
  queried = true;
  opened = KernReturn.success;
  reenumerated = KernReturn.success;
}

-- "tx" and "--mac x", and the subcommand alone.
abbrev tx_word : List ℕ
tx_word = 0x74 ∷ 0x78 ∷ []

abbrev tx_args : List (List ℕ)
tx_args = opt_mac ∷ (0x78 ∷ []) ∷ tx_word ∷ []

reads-FitsBuffer : FitsBuffer sample_world
reads-FitsBuffer n = ground arith

cmd_tx-Sent_example :
    (r : ℕ × Link) × (cmd_tx sample_world none new_link ≡ some r)
    × Sent sample_world none new_link r
unfolding Claim.sum_of
cmd_tx-Sent_example = cmd_tx-Sent sample_world none new_link (omega arith, tt) (refl, refl)

cmd_rx-Listened_example :
    (r : ℕ × Link) × (cmd_rx sample_world none new_link ≡ some r)
    × Listened sample_world none new_link r
unfolding Claim.sum_of
cmd_rx-Listened_example =
    cmd_rx-Listened sample_world none new_link (omega arith, tt) reads-FitsBuffer (refl, refl)

cmd_init-Initialised_example :
    (r : ℕ × Link) × (cmd_init sample_world none new_link ≡ some r)
    × Initialised sample_world none new_link r
unfolding Claim.sum_of
cmd_init-Initialised_example =
    cmd_init-Initialised sample_world none new_link (omega arith, tt) (refl, refl)

main-Exited_example :
    (e : Exit) × (main sample_bus (λ s. sample_world) tx_args ≡ some e)
    × Exited (parse_args tx_args) e
main-Exited_example =
    main-Exited sample_bus (λ s. sample_world) tx_args (λ s. ((omega arith, tt), reads-FitsBuffer))

parse_args_iff_example : (parse_args tx_args ≡ some (tx, none, some (0x78 ∷ []))) ↔ (
    (s : List ℕ) × (is : List Item) × (subcommand_of s ≡ some tx)
    × (tx_args ≡ render is)
    × Permᴰ is
        (item_of device_item none (item_of mac_item (some (0x78 ∷ [])) (command_item s ∷ []))))
parse_args_iff_example = parse_args_iff tx_args tx none (some (0x78 ∷ []))

main-Finished_example : Finished sample_answers (Reenumerate.main sample_answers 3)
main-Finished_example = main-Finished sample_answers 3
