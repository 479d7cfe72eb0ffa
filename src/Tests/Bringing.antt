-- ===== src/Tests/Bringing.antt =====
-- The bring-up and the EEPROM reader at concrete inputs.
use smsc95xx_macos.Base.{ℕ, ◌≡◌, refl, true, false, Option, some, List, [], ◌∷◌, length}
use smsc95xx_macos.Driver.Status.{KernReturn, is_success}
use smsc95xx_macos.Init.{
  RegIo, Callbacks, usable, init_seq, init_checked, init_run, init_write_count, eeprom_read,
  write_all, poll_clear, reset_phy,
}
use smsc95xx_macos.Init.Sequence.{writes, bring_up_trace, ResetsPhy, init_seq-wrote}
use smsc95xx_macos.Init.Eeprom.{WithinBounds, eeprom_read-bounded}

-- A chip that is always ready, and accepts every write.
abbrev ready : Option RegIo
ready = some (record {
  read = some (λ t reg. (KernReturn.success, 0));
  write = some (λ t reg v. KernReturn.success);
})

abbrev address : List ℕ
address = 2 ∷ 0 ∷ 0 ∷ 0 ∷ 0 ∷ 1 ∷ []

ready-succeeds : is_success (init_seq ready (some address) false []).0 ≡ true
unfolding init_seq init_checked init_run write_all poll_clear reset_phy is_success
ready-succeeds = refl

init_seq-wrote_example :
    (c : Callbacks) × (m : List ℕ) × (v : ℕ) × (usable ready ≡ some c)
    × (some address ≡ some m)
    × (writes (init_seq ready (some address) false []).1 ≡ bring_up_trace m false v)
    × (length (writes (init_seq ready (some address) false []).1) ≡ init_write_count)
    × ResetsPhy c v (init_seq ready (some address) false []).1
init_seq-wrote_example = init_seq-wrote ready (some address) false ready-succeeds

eeprom_read-bounded_example : WithinBounds 1 6 [] (eeprom_read ready true 1 6 [])
eeprom_read-bounded_example = eeprom_read-bounded ready true 1 6 []
