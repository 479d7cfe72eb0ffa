-- ===== src/Driver/Control/Registers.antt =====
-- Register values over the control pipe, and the read-modify-write of MAC_CR.
use smsc95xx_macos.Base.{
  ℕ, zero, suc, ◌-◌, ◌/◌, ◌^◌, ◌≤◌, ◌<◌, ◌≡◌, refl, ap, sym, if-true, if-false, sym, if-true,
  if-false, ◌∙◌, Bool, true, false, not, ◌&&◌, List, [], ◌∷◌, if◌then◌else◌, if-cases, ◌==◌, ==_iff,
  u16, arith, Bool-cases, inl, inr,
}
use smsc95xx_macos.Base.Bits.{bit, bit-bit_and, bit-bit_or}
use smsc95xx_macos.Proto.Le32.{get_le32, put_le32, put_le32_bytes, get-le_bytes}
use smsc95xx_macos.Driver.Status.{KernReturn, is_success}
use smsc95xx_macos.Init.{Trace, Callbacks}
use smsc95xx_macos.Init.Sequence.{writes}
use smsc95xx_macos.Driver.Control.{
  ControlPipe, control_io, register_bytes, register_value, read_register, promiscuous_word,
  shared_result_to_io_return, set_promiscuous_mode_enable,
}

-- The bytes that a write puts in the control buffer for a 32-bit value, read back from a transfer of
-- 4 bytes, are that value.
pub read_register-register_bytes :
    (pipe : ControlPipe) (t : Trace) (offset v : ℕ)
    → v < 2 ^ 32
    → pipe.request_in t (u16 offset) ≡ (KernReturn.success, 4, register_bytes v)
    → read_register pipe true t offset ≡ (KernReturn.success, v)
unfolding read_register is_success
read_register-register_bytes pipe t offset v small e =
    ap decode e ∙ ap (λ (w : ℕ). (KernReturn.success, w)) value
  where
    decode : KernReturn × ℕ × List ℕ → KernReturn × ℕ
    decode o =
        if not (is_success o.0)
        then (o.0, 0)
        else if not (o.1 == 4)
        then (KernReturn.underrun, 0)
        else (KernReturn.success, register_value o.2)

    value : register_value (register_bytes v) ≡ v
    value =
        unfold register_value register_bytes get_le32 put_le32 in
        ap (λ (b : List ℕ). get_le32 b 0) (put_le32_bytes [] 0 v) ∙ get-le_bytes v [] small

-- A test of every number below a bound.
abbrev all_below : (ℕ → Bool) → ℕ → Bool
all_below f zero = true
all_below f (suc n) = f n && all_below f n

all_below-at : (f : ℕ → Bool) (n k : ℕ) → all_below f n ≡ true → k < n → f k ≡ true
all_below-at f zero k h l = absurd (omega arith)
all_below-at f (suc n) k h l = elim (Bool-cases (k == n)) [
  | inl e ↦ ap f ((==_iff k n).0 e) ∙ ground arith
  | inr e ↦ all_below-at f n k (ground arith) (ground arith)
]

abbrev one_at : ℕ → ℕ → ℕ
one_at k i = if i == k then 1 else 0

prms_bit : (i : ℕ) → i < 32 → bit i 0x40000 ≡ one_at 18 i
prms_bit i h =
    (==_iff (bit i 0x40000) (one_at 18 i)).0
      (all_below-at (λ i. bit i 0x40000 == one_at 18 i) 32 i refl h)

mask_bit : (i : ℕ) → i < 32 → bit i 0xFFFBFFFF ≡ 1 - one_at 18 i
mask_bit i h =
    (==_iff (bit i 0xFFFBFFFF) (1 - one_at 18 i)).0
      (all_below-at (λ i. bit i 0xFFFBFFFF == 1 - one_at 18 i) 32 i refl h)

bit_small : (i v : ℕ) → bit i v ≤ 1
bit_small zero v = omega arith
bit_small (suc i) v = bit_small i (v / 2)

word_bit :
    (io : Callbacks) (enable : Bool) (v i : ℕ)
    → i < 32
    → bit i (promiscuous_word io enable v)
      ≡ (if i == 18 then (if enable then 1 else 0) else bit i v)
word_bit io true v i h = ground (arith, bit-bit_or i v 0x40000, prms_bit i h)
word_bit io false v i h = ground (arith, bit-bit_and i v 0xFFFBFFFF, mask_bit i h, bit_small i v)

-- If setting the promiscuous mode succeeds, the word that is wanted in MAC_CR has bit 18 as asked and
-- each other of the 32 bits as it was read; it was written once if it differs from the word read, and
-- nothing was written if it does not.
pub set_promiscuous_mode_enable-bits :
    (io : Callbacks) (enable : Bool) (i : ℕ)
    → i < 32
    → is_success (set_promiscuous_mode_enable io false enable []).0 ≡ true
    → let v = (io.read [] 0x100).1 in
      let word = promiscuous_word io enable v in
      (writes (set_promiscuous_mode_enable io false enable []).1
        ≡ (if word == v then [] else ((0x100, word) ∷ [])))
      × (bit i word ≡ (if i == 18 then (if enable then 1 else 0) else bit i v))
unfolding set_promiscuous_mode_enable writes
set_promiscuous_mode_enable-bits io enable i h ok =
    let v = (io.read [] 0x100).1 in
    let word = promiscuous_word io enable v in
    let once : List (ℕ × ℕ) = if word == v then [] else ((0x100, word) ∷ []) in
    let P = λ (o : KernReturn × Trace). is_success o.0 ≡ true → writes o.1 ≡ once in
    (
      if-cases P (not (is_success (io.read [] 0x100).0)) _ _
          (λ bad h. absurd (ground (arith, bad, h)))
          (λ _.
            if-cases P (not (word == v)) _ _
              (λ new _. sym (if-false (word == v) _ _ (ground (arith, new))))
              (λ old _. sym (if-true (word == v) _ _ (ground (arith, old)))))
          ok,
      word_bit io enable v i h,
    )

-- Only with the interface and the control buffer there is a register read.
pub control_io-there :
    (pipe : ControlPipe) (there : Bool) (t : Trace) (offset : ℕ)
    → is_success ((control_io pipe there).read t offset).0 ≡ true
    → there ≡ true
unfolding control_io read_register is_success
control_io-there pipe true t offset h = refl
control_io-there pipe false t offset h = cc h

-- The mapping of results keeps success and failure.
pub shared_result-success :
    (r : KernReturn) → is_success (shared_result_to_io_return r) ≡ is_success r
unfolding shared_result_to_io_return is_success
shared_result-success KernReturn.init_bad_arg = refl
shared_result-success KernReturn.init_reset_timeout = refl
shared_result-success KernReturn.init_e2p_timeout = refl
shared_result-success KernReturn.init_e2p_no_eeprom = refl
shared_result-success _ = refl
