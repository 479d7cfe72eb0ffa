-- ===== src/Init/Eeprom.antt =====
-- The EEPROM reader: its bounds, and how many accesses it makes at most.
use smsc95xx_macos.Base.{
  ℕ, zero, suc, ◌+◌, ◌-◌, ◌*◌, ◌≤◌, ◌<◌, ◌≡◌, refl, Bool, true, false, not, ◌||◌, ltb, Option, none,
  some, List, [], ◌∷◌, if-cases, length, All, ◌==◌, bit_and, u16, arith,
}
use smsc95xx_macos.Driver.Status.{KernReturn, is_success}
use smsc95xx_macos.Proto.Words.{e2p_read_cmd}
use smsc95xx_macos.Init.{
  reg_read, Trace, RegIo, Callbacks, usable, write_all, poll_clear, eeprom_byte, eeprom_bytes,
  eeprom_run, eeprom_checked, eeprom_read,
}

-- A reader's result: how many bytes, their size, and the accesses.
abbrev pub WithinBounds : ℕ → ℕ → Trace → KernReturn × List ℕ × Trace → Type 0
WithinBounds offset len t o =
    (length o.1 ≤ len)
    × (is_success o.0 ≡ true → length o.1 ≡ len)
    × (is_success o.0 ≡ true → offset + len ≤ 512)
    × All (λ b. b < 256) o.1
    × (length o.2 ≤ 100 + len * 102 + length t)

module _ (io : Callbacks) where
  -- A poll makes at most as many accesses as its bound.
  poll-length :
      (reg mask : ℕ) (late : KernReturn) (n v : ℕ) (t : Trace)
      → length (poll_clear io reg mask late n v t).2 ≤ n + length t
  unfolding poll_clear
  poll-length reg mask late zero v t = omega arith
  poll-length reg mask late (suc n) v t =
      let (r, w) = io.read t reg in
      let t1 = reg_read reg r w ∷ t in
      let P = λ (o : KernReturn × ℕ × Trace). length o.2 ≤ suc n + length t in
      if-cases P (not (is_success r)) _ _ (λ _. omega arith)
        (λ _.
          if-cases P (bit_and w mask == 0) _ _ (λ _. omega arith)
            (λ _. omega (arith, poll-length reg mask late n w t1)))

  write-length :
      (reg value : ℕ) (t : Trace) → length (write_all io ((reg, value) ∷ []) t).1 ≡ 1 + length t
  unfolding write_all
  write-length reg value t =
      if-cases (λ (o : KernReturn × Trace). length o.1 ≡ 1 + length t)
        (is_success (io.write t reg value)) _ _ (λ _. omega arith) (λ _. omega arith)

  byte-length : (address : ℕ) (t : Trace) → length (eeprom_byte io address t).2 ≤ 102 + length t
  unfolding eeprom_byte
  byte-length address t =
      let t1 = (write_all io ((0x30, e2p_read_cmd (u16 address)) ∷ []) t).1 in
      let w = write-length 0x30 (e2p_read_cmd (u16 address)) t in
      let p = poll-length 0x30 0x80000000 KernReturn.init_e2p_timeout 100 0 t1 in
      ground (arith, w, p)

  -- What reading `n` bytes gives.
  abbrev pub ReadBytes : ℕ → Trace → KernReturn × List ℕ × Trace → Type 0
  ReadBytes n t (r, bs, u) =
      (length bs ≤ n)
      × (is_success r ≡ true → length bs ≡ n)
      × All (λ b. b < 256) bs
      × (length u ≤ n * 102 + length t)

  bytes-ReadBytes : (address n : ℕ) (t : Trace) → ReadBytes n t (eeprom_bytes io address n t)
  unfolding eeprom_bytes
  bytes-ReadBytes address zero t = (omega arith, λ _. refl, tt, omega arith)
  bytes-ReadBytes address (suc n) t =
      let (r, b, t1) = eeprom_byte io address t in
      let (few, all, small, short) = bytes-ReadBytes (address + 1) n t1 in
      let e = byte-length address t in
      if-cases (ReadBytes (suc n) t) (is_success r) _ _
        (λ _. (
          omega (arith, few),
          λ h. omega (arith, all h),
          (omega arith, small),
          omega (arith, short, e),
        ))
        (λ bad. (omega arith, λ h. absurd (ground (arith, h, bad)), tt, omega (arith, e)))

  run-bounded :
      (offset len : ℕ) (t : Trace) → WithinBounds offset len t (eeprom_run io offset len t)
  unfolding eeprom_run is_success
  run-bounded offset len t =
      let P = WithinBounds offset len t in
      let (r, v, t1) = poll_clear io 0x30 0x80000000 KernReturn.init_e2p_timeout 100 0 t in
      let p = poll-length 0x30 0x80000000 KernReturn.init_e2p_timeout 100 0 t in
      if-cases P (ltb 512 len || ltb (512 - len) offset) _ _
        (λ _. (omega arith, λ h. cc h, λ h. cc h, tt, omega arith))
        (λ inside.
          if-cases P (not (is_success r)) _ _
            (λ bad. (
              omega arith,
              λ h. absurd (ground (arith, h, bad)),
              λ h. absurd (ground (arith, h, bad)),
              tt,
              omega (arith, p),
            ))
            (λ ok.
              let (few, all, small, short) = bytes-ReadBytes offset len t1 in
              (few, all, λ _. ground arith, small, omega (arith, short, p))))

checked-bounded :
    (c : Option Callbacks) (buf : Bool) (offset len : ℕ) (t : Trace)
    → WithinBounds offset len t (eeprom_checked c buf offset len t)
unfolding eeprom_checked is_success
checked-bounded none buf offset len t = (omega arith, λ h. cc h, λ h. cc h, tt, omega arith)
checked-bounded (some c) false offset len t = (omega arith, λ h. cc h, λ h. cc h, tt, omega arith)
checked-bounded (some c) true offset len t = run-bounded c offset len t

-- Reading `len` bytes of the EEPROM from `offset` on stores at most `len` octets, and exactly `len` if
-- it succeeds, which it does only for a range inside the 512 bytes; whatever the chip answers, it
-- ends within 100 accesses and 102 for each byte.
pub eeprom_read-bounded :
    (io : Option RegIo) (buf : Bool) (offset len : ℕ) (t : Trace)
    → WithinBounds offset len t (eeprom_read io buf offset len t)
unfolding eeprom_read
eeprom_read-bounded io buf offset len t = checked-bounded (usable io) buf offset len t
