-- ===== src/Driver/Status.antt =====
-- `kern_return_t`, `IOReturn` and `int` results. The SDK's codes are distinct numbers; the model
-- names those that the code names, and `other` is any further code. The failures of
-- common/smsc95xx_init.h share the type, as they share `int` in the code.
use smsc95xx_macos.Base.{ℕ, ◌≡◌, refl, Bool, true, false}

pub data KernReturn : Type 0 where
  success bad_argument no_memory no_device no_resources not_attached : KernReturn
  offline not_ready not_responding aborted timeout not_found : KernReturn
  unsupported underrun overrun pipe_stalled not_readable : KernReturn
  not_open transaction_timeout : KernReturn
  init_bad_arg init_reset_timeout init_e2p_timeout init_e2p_no_eeprom : KernReturn
  other : ℕ → KernReturn

-- `ret == kIOReturnSuccess`.
unfoldable pub is_success : KernReturn → Bool
is_success KernReturn.success = true
is_success _ = false

-- `status == kIOReturnAborted`.
unfoldable pub is_aborted : KernReturn → Bool
is_aborted KernReturn.aborted = true
is_aborted _ = false

-- `status == kUSBHostReturnPipeStalled`.
unfoldable pub is_stalled : KernReturn → Bool
is_stalled KernReturn.pipe_stalled = true
is_stalled _ = false

pub is_success-success : is_success KernReturn.success ≡ true
unfolding is_success
is_success-success = refl

pub is_success_of : (r : KernReturn) → is_success r ≡ true → r ≡ KernReturn.success
unfolding is_success
is_success_of KernReturn.success h = refl
is_success_of _ h = cc
