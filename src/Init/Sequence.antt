-- ===== src/Init/Sequence.antt =====
-- The bring-up sequence: which registers it writes, and where it stops.
use smsc95xx_macos.Base.{
  ℕ, zero, suc, ◌≡◌, refl, ap, sym, ◌∙◌, Bool, true, not, Option, none, some, List, [], ◌∷◌, ◌++◌,
  append_assoc, append-nil, if◌then◌else◌, if-cases, length, ◌==◌, bit_and, bit_or, arith,
}
use smsc95xx_macos.Driver.Status.{KernReturn, is_success}
use smsc95xx_macos.Proto.Mac.{mac_to_regs}
use smsc95xx_macos.Init.{
  reg_read, reg_write, Trace, RegIo, Callbacks, usable, then_on, write_all, poll_clear,
  bring_up_writes, reset_phy, init_run, init_checked, init_seq, init_write_count,
}

-- The writes of a trace, earliest first.
unfoldable pub writes : Trace → List (ℕ × ℕ)
writes [] = []
writes (reg_read reg r v ∷ t) = writes t
writes (reg_write reg v r ∷ t) = writes t ++ ((reg, v) ∷ [])

-- The twenty writes of the bring-up, in order, with `v` the value that PM_CTRL had.
abbrev pub bring_up_trace : List ℕ → Bool → ℕ → List (ℕ × ℕ)
bring_up_trace mac promiscuous v =
    (0x14, 0x8)
    ∷ (0x108, (mac_to_regs mac).0)
    ∷ (0x104, (mac_to_regs mac).1)
    ∷ (0x14, 0x1004)
    ∷ (0x38, 0x5)
    ∷ (0x6C, 0x2000)
    ∷ (0x14, 0x1026)
    ∷ (0x08, 0xFFFFFFFF)
    ∷ (0x24, 0x81110007)
    ∷ (0x11C, 0)
    ∷ (0x2C, 0xF830A1)
    ∷ (0x120, 0x8100)
    ∷ (0x10C, 0)
    ∷ (0x110, 0)
    ∷ (0x100, 0)
    ∷ (0x100, 0x8)
    ∷ (0x10, 0x4)
    ∷ (0x100, if promiscuous then 0x84000C else 0x80000C)
    ∷ (0x2C, 0xF830AF)
    ∷ (0x20, bit_or v 0x10)
    ∷ []

-- The last two accesses of a trace are a read of PM_CTRL, which the chip answered with `v`, and the
-- write of `v` with the PHY's reset bit.
abbrev pub ResetsPhy : Callbacks → ℕ → Trace → Type 0
ResetsPhy io v t =
    (before : Trace) × (r : KernReturn) × (w : KernReturn) × (io.read before 0x20 ≡ (r, v))
    × (is_success r ≡ true)
    × (t ≡ reg_write 0x20 (bit_or v 0x10) w ∷ reg_read 0x20 r v ∷ before)

module _ (io : Callbacks) where
  all-wrote :
      (ws : List (ℕ × ℕ)) (t : Trace)
      → is_success (write_all io ws t).0 ≡ true
      → writes (write_all io ws t).1 ≡ writes t ++ ws
  unfolding write_all writes
  all-wrote [] t = λ h. sym (append-nil (writes t))
  all-wrote ((reg, value) ∷ ws) t =
      let r = io.write t reg value in
      let t1 = reg_write reg value r ∷ t in
      if-cases
        (λ (o : KernReturn × Trace).
          is_success o.0 ≡ true → writes o.1 ≡ writes t ++ ((reg, value) ∷ ws))
        (is_success r) (write_all io ws t1) (r, t1)
        (λ ok h. all-wrote ws t1 h ∙ append_assoc (writes t) ((reg, value) ∷ []) ws)
        (λ bad h. absurd (ground (arith, bad, h)))

  -- Polling writes nothing.
  pub poll-wrote :
      (reg mask : ℕ) (late : KernReturn) (n v : ℕ) (t : Trace)
      → writes (poll_clear io reg mask late n v t).2 ≡ writes t
  unfolding poll_clear writes
  poll-wrote reg mask late zero v t = refl
  poll-wrote reg mask late (suc n) v t =
      let (r, w) = io.read t reg in
      let t1 = reg_read reg r w ∷ t in
      let P = λ (o : KernReturn × ℕ × Trace). writes o.2 ≡ writes t in
      if-cases P (not (is_success r)) _ _ (λ _. refl)
        (λ _.
          if-cases P (bit_and w mask == 0) _ _ (λ _. refl) (λ _. poll-wrote reg mask late n w t1))

  then-wrote :
      (o : KernReturn × Trace) (k : Trace → KernReturn × Trace) (Q : Trace → Type 0)
      → (is_success o.0 ≡ true → is_success (k o.1).0 ≡ true → Q (k o.1).1)
      → is_success (then_on o k).0 ≡ true
      → Q (then_on o k).1
  then-wrote (r, t) k Q f =
      if-cases (λ (o : KernReturn × Trace). is_success o.0 ≡ true → Q o.1) (is_success r) _ _
        (λ ok h. f ok h) (λ bad h. absurd (ground (arith, bad, h)))

  abbrev Wrote : List (ℕ × ℕ) → Trace → KernReturn × Trace → Type 0
  Wrote ws t o = is_success o.0 ≡ true → writes o.1 ≡ writes t ++ ws

  one_write :
      (v : ℕ) (t : Trace)
      → (write_all io ((0x20, bit_or v 0x10) ∷ []) t).1
        ≡ reg_write 0x20 (bit_or v 0x10) (io.write t 0x20 (bit_or v 0x10)) ∷ t
  unfolding write_all
  one_write v t = ground arith

  reset_phy-wrote :
      (t : Trace)
      → is_success (reset_phy io t).0 ≡ true
      → (v : ℕ) × (writes (reset_phy io t).1 ≡ writes t ++ ((0x20, bit_or v 0x10) ∷ []))
        × ResetsPhy io v (reset_phy io t).1
  unfolding reset_phy
  reset_phy-wrote t =
      let (r, v) = io.read t 0x20 in
      let t1 = reg_read 0x20 r v ∷ t in
      if-cases
        (λ (o : KernReturn × Trace).
          is_success o.0 ≡ true
          → (v : ℕ) × (writes o.1 ≡ writes t ++ ((0x20, bit_or v 0x10) ∷ [])) × ResetsPhy io v o.1)
        (not (is_success r)) _ _ (λ bad h. absurd (ground (arith, bad, h)))
        (λ ok h. (
          v,
          unfold writes in all-wrote ((0x20, bit_or v 0x10) ∷ []) t1 h,
          (t, r, io.write t1 0x20 (bit_or v 0x10), refl, ground (arith, ok), one_write v t1),
        ))

  init_run-wrote :
      (mac : List ℕ) (promiscuous : Bool) (t : Trace)
      → is_success (init_run io mac promiscuous t).0 ≡ true
      → (v : ℕ) × (writes (init_run io mac promiscuous t).1
          ≡ writes t ++ bring_up_trace mac promiscuous v)
        × ResetsPhy io v (init_run io mac promiscuous t).1
  unfolding init_run
  init_run-wrote mac promiscuous t =
      let Q = λ (u : Trace).
        (v : ℕ) × (writes u ≡ writes t ++ bring_up_trace mac promiscuous v) × ResetsPhy io v u in
      let o1 = write_all io ((0x14, 0x8) ∷ []) t in
      let p = poll_clear io 0x14 0x8 KernReturn.init_reset_timeout 100 0 o1.1 in
      let o2 = write_all io (bring_up_writes io mac promiscuous) p.2 in
      let phy = λ (u : Trace).
        then_on (write_all io (bring_up_writes io mac promiscuous) u) (reset_phy io) in
      let body = λ (u : Trace).
        let q = poll_clear io 0x14 0x8 KernReturn.init_reset_timeout 100 0 u in
        then_on (q.0, q.2) phy in
      then-wrote o1 body Q (λ ok1.
        then-wrote (p.0, p.2) phy Q
          (λ okp. then-wrote o2 (reset_phy io) Q (λ ok2 h.
            let (v, e, reset) = reset_phy-wrote o2.1 h in
            let bring = bring_up_writes io mac promiscuous in
            let last = (0x20, bit_or v 0x10) ∷ [] in
            let before : writes p.2 ≡ writes t ++ ((0x14, 0x8) ∷ []) =
              poll-wrote 0x14 0x8 KernReturn.init_reset_timeout 100 0 o1.1
              ∙ all-wrote ((0x14, 0x8) ∷ []) t ok1 in
            let middle : writes o2.1 ≡ writes t ++ ((0x14, 0x8) ∷ bring) =
              all-wrote bring p.2 ok2
              ∙ (ap (λ w. w ++ bring) before ∙ append_assoc (writes t) ((0x14, 0x8) ∷ []) bring) in
            (
              v,
              e ∙ (ap (λ w. w ++ last) middle ∙ append_assoc (writes t) ((0x14, 0x8) ∷ bring) last),
              reset,
            ))))

-- A successful bring-up adds its writes to those before it.
pub init_seq-adds :
    (io : Callbacks) (mac : List ℕ) (promiscuous : Bool) (t : Trace)
    → let both : RegIo = record { read = some io.read; write = some io.write } in
      is_success (init_seq (some both) (some mac) promiscuous t).0 ≡ true
      → (v : ℕ) × (writes (init_seq (some both) (some mac) promiscuous t).1
          ≡ writes t ++ bring_up_trace mac promiscuous v)
unfolding init_seq init_checked
init_seq-adds io mac promiscuous t h =
    let (v, e, _) = init_run-wrote io mac promiscuous t h in (v, e)

-- What a successful bring-up wrote.
abbrev BroughtUp : Option Callbacks → Option (List ℕ) → Bool → KernReturn × Trace → Type 0
BroughtUp c mac promiscuous (r, t) =
    is_success r ≡ true
    → (io : Callbacks) × (m : List ℕ) × (v : ℕ) × (c ≡ some io)
      × (mac ≡ some m)
      × (writes t ≡ bring_up_trace m promiscuous v)
      × (length (writes t) ≡ init_write_count)
      × ResetsPhy io v t

init_checked-wrote :
    (c : Option Callbacks) (mac : Option (List ℕ)) (promiscuous : Bool)
    → BroughtUp c mac promiscuous (init_checked c mac promiscuous [])
unfolding init_checked is_success writes
init_checked-wrote none mac promiscuous h = cc h
init_checked-wrote (some c) none promiscuous h = cc h
init_checked-wrote (some c) (some m) promiscuous h =
    let (v, w, reset) = init_run-wrote c m promiscuous [] h in
    (c, m, v, refl, refl, w, ap length w, reset)

-- If the bring-up succeeds, both callbacks and an address were given, and it made exactly the twenty
-- writes of `bring_up_trace`, in that order: no further write, and none left out. Its last two accesses
-- are a read of PM_CTRL that succeeded, and the write of the value that it gave with the PHY's reset bit.
pub init_seq-wrote :
    (io : Option RegIo) (mac : Option (List ℕ)) (promiscuous : Bool)
    → is_success (init_seq io mac promiscuous []).0 ≡ true
    → (c : Callbacks) × (m : List ℕ) × (v : ℕ) × (usable io ≡ some c)
      × (mac ≡ some m)
      × (writes (init_seq io mac promiscuous []).1 ≡ bring_up_trace m promiscuous v)
      × (length (writes (init_seq io mac promiscuous []).1) ≡ init_write_count)
      × ResetsPhy c v (init_seq io mac promiscuous []).1
unfolding init_seq
init_seq-wrote io mac promiscuous h = init_checked-wrote (usable io) mac promiscuous h
