-- ===== src/Tests/Attaching.antt =====
-- Attaches at a concrete site: the chip answers, its EEPROM carries the address 02:00:00:00:00:01.
use smsc95xx_macos.Base.{
  ℕ, ◌≡◌, true, false, [], ◌∷◌, if◌then◌else◌, ◌==◌, bit_and, replicate, get_or,
}
use smsc95xx_macos.Regs.{reg_e2p_cmd, reg_e2p_data, e2p_loaded}
use smsc95xx_macos.Driver.Status.{KernReturn, is_success}
use smsc95xx_macos.Init.{Trace, reg_read, reg_write}
use smsc95xx_macos.Driver.Control.{ControlPipe, register_bytes}
use smsc95xx_macos.Driver.Attach.{Site}
use smsc95xx_macos.Driver.Attach.Start.{Ends, start, new_attach}
use smsc95xx_macos.Driver.Attach.Cleanup.{Clean, Refused, start-Outcome}
use smsc95xx_macos.Driver.Attach.Provenance.{Known}
use smsc95xx_macos.Driver.Attach.Started.{Started, start-Started}
use smsc95xx_macos.Tests.Sample.{sample_kit}

-- The byte of the EEPROM that was asked for last.
unfoldable pub asked_byte : Trace → ℕ
asked_byte [] = 0
asked_byte (reg_read o r v ∷ t) = asked_byte t
asked_byte (reg_write o v r ∷ t) =
    if o == reg_e2p_cmd
    then get_or (0xA5 ∷ 0x02 ∷ 0 ∷ 0 ∷ 0 ∷ 0 ∷ 0x01 ∷ []) (bit_and v 0x1FF) 0
    else asked_byte t

abbrev chip_value : Trace → ℕ → ℕ
chip_value t offset =
    if offset == reg_e2p_cmd then e2p_loaded else if offset == reg_e2p_data then asked_byte t else 0

-- Every register answers in four bytes.
abbrev pub sample_pipe : ControlPipe
sample_pipe = record {
  request_in = λ t offset. (KernReturn.success, 4, register_bytes (chip_value t offset));
  request_out = λ t offset bytes. (KernReturn.success, 4);
}

-- `registers` is the answer to the registration.
abbrev pub sample_site : KernReturn → Site
sample_site registers = record {
  kit = sample_kit;
  pipe = sample_pipe;
  super_start = KernReturn.success;
  is_interface = true;
  open_result = KernReturn.success;
  acquire = λ r. (KernReturn.success, true);
  address_range = λ r. (KernReturn.success, 4096);
  contents = replicate 1526 0;
  set_handler = λ r. KernReturn.success;
  enable_timer = KernReturn.success;
  publishes = λ p. true;
  register_ethernet = λ mac. registers;
}

abbrev pub good_site : Site
good_site = sample_site KernReturn.success

abbrev pub bad_site : Site
bad_site = sample_site KernReturn.no_resources

start-Outcome_example :
    Ends
      (λ ret a. is_success ret ≡ false → Clean a)
      (λ ret a t. (is_success ret ≡ false) × Refused a t)
      (start bad_site new_attach)
start-Outcome_example = start-Outcome bad_site

start-Started_example :
    Ends
      (λ ret a. is_success ret ≡ true → Started good_site a)
      (λ ret a t. Known good_site a.driver.life)
      (start good_site new_attach)
start-Started_example = start-Started good_site
