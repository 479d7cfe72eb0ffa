-- ===== src/Probe/Agreement.antt =====
-- The probe and the driver extension ask the same of the chip, and take its answers the same way.
use smsc95xx_macos.Base.{
  ℕ, zero, suc, ◌≡◌, ◌∙◌, refl, ap, Bool, true, false, not, some, List, ◌∷◌, if◌then◌else◌, ◌==◌,
  bit_and, u16, arith,
}
use smsc95xx_macos.Driver.Status.{KernReturn, is_success, is_success_of}
use smsc95xx_macos.Init.{Trace, Callbacks, reg_read, init_seq}
use smsc95xx_macos.Driver.Control
use smsc95xx_macos.Driver.Control.{ControlPipe, control_io, shared_result_to_io_return}
use smsc95xx_macos.Probe
use smsc95xx_macos.Probe.{
  probe_callbacks, probe_io, read_reg, write_reg_out, usb_control_in, usb_control_out,
  shared_to_ioreturn, init,
}

underrun-fails : is_success KernReturn.underrun ≡ false
unfolding is_success
underrun-fails = refl

success-succeeds : is_success KernReturn.success ≡ true
unfolding is_success
success-succeeds = refl

pub read_same :
    (pipe : ControlPipe) (there : Bool) (t : Trace) (offset : ℕ)
    → read_reg pipe there t offset ≡ (control_io pipe there).read t offset
unfolding read_reg usb_control_in control_io Control.read_register
read_same pipe false t offset = unfold is_success in refl
read_same pipe true t offset =
    ground
      (arith, is_success_of (pipe.request_in t (u16 offset)).0, underrun-fails, success-succeeds)

pub write_same :
    (pipe : ControlPipe) (there : Bool) (t : Trace) (offset value : ℕ)
    → write_reg_out pipe there t offset value ≡ (control_io pipe there).write t offset value
unfolding write_reg_out usb_control_out control_io Control.write_register
write_same pipe false t offset value = refl
write_same pipe true t offset value = ground (
  arith,
  is_success_of (pipe.request_out t (u16 offset) (Control.register_bytes value)).0,
  underrun-fails,
)

pub shared_same : (r : KernReturn) → shared_to_ioreturn r ≡ shared_result_to_io_return r
unfolding shared_to_ioreturn shared_result_to_io_return
shared_same KernReturn.success = refl
shared_same KernReturn.init_bad_arg = refl
shared_same KernReturn.init_reset_timeout = refl
shared_same KernReturn.init_e2p_timeout = refl
shared_same KernReturn.init_e2p_no_eeprom = refl
shared_same _ = refl

module _ (pipe : ControlPipe) (there : Bool) where
  wait_same :
      (offset mask n : ℕ) (t : Trace)
      → Probe.wait_clear pipe there offset mask n t
        ≡ Control.wait_clear (probe_callbacks pipe there) offset mask n t
  unfolding Probe.wait_clear Control.wait_clear
  wait_same offset mask zero t = refl
  wait_same offset mask (suc n) t =
      let (kr, v) = read_reg pipe there t offset in
      let t1 = reg_read offset kr v ∷ t in
      ap
        (λ (rest : KernReturn × Trace).
          if not (is_success kr)
          then (kr, t1)
          else if bit_and v mask == 0
          then (KernReturn.success, t1)
          else rest)
        (wait_same offset mask n t1)

  callbacks_same : probe_callbacks pipe there ≡ control_io pipe there
  unfolding control_io
  callbacks_same = λ i. record {
    read = λ t offset. read_same pipe there t offset i;
    write = λ t offset value. write_same pipe there t offset value i;
  }

  -- Whatever the device answers, the probe and the driver extension make the same accesses to read a
  -- PHY register, and get the same result and value; and so they do to bring the chip up.
  pub probe-agrees :
      (phy reg : ℕ) (mac : List ℕ) (promiscuous : Bool) (t : Trace)
      → (Probe.mii_read pipe there phy reg t ≡ Control.mii_read (control_io pipe there) phy reg t)
        × (Probe.init pipe there mac promiscuous t ≡ (
            let o = init_seq (probe_io (control_io pipe there)) (some mac) promiscuous t in
            (shared_result_to_io_return o.0, o.1)))
  unfolding Probe.mii_read Control.mii_read Control.mii_data Probe.init
  probe-agrees phy reg mac promiscuous t = (
    simp (wait_same 0x114 0x1 100) refl ∙ ap (λ io. Control.mii_read io phy reg t) callbacks_same,
    (λ i. (
      shared_same (run (probe_callbacks pipe there)).0 i,
      (run (probe_callbacks pipe there)).1,
    ))
        ∙ ap (λ io. (shared_result_to_io_return (run io).0, (run io).1)) callbacks_same,
  )
    where
      run : Callbacks → KernReturn × Trace
      run io = init_seq (probe_io io) (some mac) promiscuous t
