-- ===== src/Tests/Controlling.antt =====
-- The control pipe at concrete inputs.
use smsc95xx_macos.Base.{◌≡◌, refl, true, false, [], ◌∷◌, if◌then◌else◌, ◌==◌, arith}
use smsc95xx_macos.Base.Bits.{bit}
use smsc95xx_macos.Driver.Status.{KernReturn, is_success}
use smsc95xx_macos.Init.{Callbacks}
use smsc95xx_macos.Init.Sequence.{writes}
use smsc95xx_macos.Driver.Control.{
  ControlPipe, register_bytes, read_register, promiscuous_word, set_promiscuous_mode_enable,
}
use smsc95xx_macos.Driver.Control.Registers.{
  read_register-register_bytes, set_promiscuous_mode_enable-bits,
}

-- A chip whose registers all hold 0xDEADBEEF.
abbrev pipe : ControlPipe
pipe = record {
  request_in = λ t reg. (KernReturn.success, 4, register_bytes 0xDEADBEEF);
  request_out = λ t reg bytes. (KernReturn.success, 4);
}

read_register-register_bytes_example :
    read_register pipe true [] 0x100 ≡ (KernReturn.success, 0xDEADBEEF)
read_register-register_bytes_example =
    read_register-register_bytes pipe [] 0x100 0xDEADBEEF (omega arith) refl

-- A chip with MAC_CR at 0x80000C.
abbrev io : Callbacks
io = record {
  read = λ t reg. (KernReturn.success, 0x80000C);
  write = λ t reg v. KernReturn.success;
}

set-succeeds : is_success (set_promiscuous_mode_enable io false true []).0 ≡ true
unfolding set_promiscuous_mode_enable is_success
set-succeeds = refl

set_promiscuous_mode_enable-bits_example :
    let word = promiscuous_word io true 0x80000C in
    (writes (set_promiscuous_mode_enable io false true []).1
      ≡ (if word == 0x80000C then [] else ((0x100, word) ∷ [])))
    × (bit 18 word ≡ (if 18 == 18 then (if true then 1 else 0) else bit 18 0x80000C))
set_promiscuous_mode_enable-bits_example =
    set_promiscuous_mode_enable-bits io true 18 (omega arith) set-succeeds
