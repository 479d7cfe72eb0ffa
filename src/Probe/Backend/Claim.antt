-- ===== src/Probe/Backend/Claim.antt =====
-- What a claim of the interface leaves: an interface whose bulk pipes are known, or none.
use smsc95xx_macos.Base.{
  ℕ, ◌+◌, ◌<◌, ◌≡◌, ◌≢◌, if-cases, refl, sym, ◌∙◌, subst, true, false, not, ◌||◌, Option, none,
  some, List, [], ◌∷◌, ◌==◌, All, is_some, if◌then◌else◌, arith,
}
use mathlib.Core.Option
use smsc95xx_macos.Driver.Status.{KernReturn, is_success, is_success-success}
use smsc95xx_macos.Probe.Backend.{
  Interface, UsbHandle, Call, iface_open, iface_close, iface_release, pipes_result, find_bulk_pipes,
  Attempt, skipped, stuck, claimed, failed, use_pipes, attempt, settle, try_services,
  usb_claim_interface,
}
use smsc95xx_macos.Probe.Backend.Pipes.{Scanned, scan_pipes-ends}

-- How a call changes the number of open interfaces: those opened, and those closed.
abbrev opens : Call → ℕ
opens (iface_open r) = if is_success r then 1 else 0
opens _ = 0

abbrev closes : Call → ℕ
closes iface_close = 1
closes _ = 0

-- Interfaces that were tried, and those released.
abbrev tries : Call → ℕ
tries (iface_open r) = 1
tries _ = 0

abbrev releases : Call → ℕ
releases iface_release = 1
releases _ = 0

unfoldable pub sum_of : (Call → ℕ) → List Call → ℕ
sum_of f [] = 0
sum_of f (c ∷ cs) = f c + sum_of f cs

-- Open and referenced are `n` interfaces.
abbrev pub Holds : ℕ → UsbHandle → Type 0
Holds n d =
    (sum_of opens d.calls ≡ sum_of closes d.calls + n)
    × (sum_of tries d.calls ≡ sum_of releases d.calls + n)

-- The pipes recorded are the interface's first bulk pipes, and both are there.
abbrev pub Usable : UsbHandle → Interface → Type 0
Usable d f = Scanned f (f.count + 1) (d.pipe_in, d.pipe_out) × (d.pipe_in ≢ 0) × (d.pipe_out ≢ 0)

-- With no interface claimed none is held; with one, one is, and it is usable.
abbrev pub Sound : UsbHandle → Option Interface → Type 0
Sound d none = Holds 0 d
Sound d (some f) = Holds 1 d × Usable d f

abbrev pub Claimed : Option (KernReturn × UsbHandle) → Type 0
Claimed r =
    (o : KernReturn × UsbHandle) × (r ≡ some o)
    × (is_some o.1.iface ≡ is_success o.0)
    × Sound o.1 o.1.iface

-- No service is left half taken: it failed, or it is claimed and usable.
abbrev Tried : Attempt → Type 0
Tried skipped = Unit {0}
Tried stuck = ⊥
Tried (claimed d) = (f : Interface) × (d.iface ≡ some f) × Sound d (some f)
Tried (failed kr d) = (is_success kr ≡ false) × (d.iface ≡ none) × Holds 0 d

is_success-not_found : is_success KernReturn.not_found ≡ false
unfolding is_success
is_success-not_found = refl

used-Tried :
    (f : Interface) (pk : KernReturn) (d : UsbHandle)
    → Holds 1 d
    → (is_success pk ≡ true → (d.iface ≡ some f) × Usable d f)
    → Tried (use_pipes (some (pk, d)))
unfolding use_pipes sum_of
used-Tried f pk d (opened, held) k =
    if-cases Tried (is_success pk) _ _ (λ ok. (f, (k ok).0, ((opened, held), (k ok).1)))
      (λ bad. (bad, refl, (ground (arith, opened), ground (arith, held))))

both :
    (i o : ℕ)
    → is_success (if i == 0 || o == 0 then KernReturn.not_found else KernReturn.success) ≡ true
    → (i ≢ 0) × (o ≢ 0)
both i o ok =
    let fails = is_success-not_found in
    ((λ z. absurd (ground (arith, ok, z, fails))), (λ z. absurd (ground (arith, ok, z, fails))))

find-Tried :
    (f : Interface) (d : UsbHandle)
    → f.count < 255
    → d.iface ≡ some f
    → Holds 1 d
    → Tried (use_pipes (find_bulk_pipes f d))
unfolding find_bulk_pipes pipes_result
find-Tried f d few has h =
    let ((i, o), e, scanned) = (scan_pipes-ends f).0 few in
    if-cases (λ r. Tried (use_pipes r)) (not (is_success f.endpoints_result)) _ _
      (λ bad. used-Tried f f.endpoints_result d h (λ ok. absurd (ground (arith, bad, ok))))
      (λ _.
        subst (λ (r : Option (ℕ × ℕ)). Tried (use_pipes (Option.map (pipes_result d) r))) (sym e)
          (used-Tried f (pipes_result d (i, o)).0 (pipes_result d (i, o)).1 h
            (λ ok. (has, (scanned, (both i o ok).0, (both i o ok).1)))))

attempt-Tried :
    (f : Interface) (d : UsbHandle)
    → f.count < 255
    → d.iface ≡ none
    → Holds 0 d
    → Tried (attempt f d)
unfolding attempt sum_of
attempt-Tried f d few idle (opened, held) =
    if-cases Tried (not f.queried) _ _ (λ _. tt)
      (λ _.
        if-cases Tried (is_success f.open_result) _ _
          (λ ok. find-Tried f _ few refl (ground (arith, ok), ground (arith)))
          (λ bad. (bad, idle, (ground (arith, bad), ground (arith)))))

settle-Claimed :
    (a : Attempt) (last : KernReturn) (d : UsbHandle)
    (rest : KernReturn → UsbHandle → Option (KernReturn × UsbHandle))
    → Tried a
    → is_success last ≡ false
    → d.iface ≡ none
    → Holds 0 d
    → ((kr : KernReturn) (d1 : UsbHandle)
        → is_success kr ≡ false
        → d1.iface ≡ none
        → Holds 0 d1
        → Claimed (rest kr d1))
    → Claimed (settle a last d rest)
unfolding settle is_success
settle-Claimed skipped last d rest t bad idle h k = k last d bad idle h
settle-Claimed stuck last d rest t bad idle h k = absurd t
settle-Claimed (claimed d1) last d rest (f, has, s) bad idle h k = (
  (KernReturn.success, d1),
  refl,
  subst (λ (i : Option Interface). is_some i ≡ true) (sym has) refl,
  subst (Sound d1) (sym has) s,
)
settle-Claimed (failed kr d1) last d rest (failing, none1, h1) bad idle h k =
    k kr d1 failing none1 h1

try-Claimed :
    (fs : List Interface) (last : KernReturn) (d : UsbHandle)
    → All (λ (f : Interface). f.count < 255) fs
    → is_success last ≡ false
    → d.iface ≡ none
    → Holds 0 d
    → Claimed (try_services fs last d)
unfolding try_services
try-Claimed [] last d few bad idle h = (
  (last, d),
  refl,
  subst (λ (i : Option Interface). is_some i ≡ is_success last) (sym idle) (sym bad),
  subst (Sound d) (sym idle) h,
)
try-Claimed (f ∷ fs) last d (few, rest) bad idle h =
    settle-Claimed (attempt f d) last d (λ kr d1. try_services fs kr d1)
      (attempt-Tried f d few idle h) bad idle h
      (λ kr d1 failing idle1 h1. try-Claimed fs kr d1 rest failing idle1 h1)

none_of : (i : Option Interface) → is_some i ≡ false → i ≡ none
none_of none h = refl
none_of (some f) h = cc

-- A claim of a device that is there returns, whatever the services answer, if none of them says that it
-- has 255 pipes. If it succeeds, one interface is held and the pipes recorded are its first bulk pipe in
-- and its first bulk pipe out. If it fails, each interface that was opened is closed and each that was
-- tried is released.
pub usb_claim_interface-Claimed :
    (iterator : KernReturn) (services : List Interface) (d : UsbHandle)
    → All (λ (f : Interface). f.count < 255) services
    → Sound d d.iface
    → Claimed (usb_claim_interface true iterator services d)
unfolding usb_claim_interface
usb_claim_interface-Claimed iterator services d few sound =
    if-cases Claimed (is_some d.iface) _ _
      (λ there. ((KernReturn.success, d), refl, there ∙ sym is_success-success, sound))
      (λ free.
        let idle = none_of d.iface free in
        if-cases Claimed (not (is_success iterator)) _ _
          (λ bad. ((iterator, d), refl, ground (arith, free, bad), sound))
          (λ _.
            try-Claimed services KernReturn.not_found d few is_success-not_found idle
              (subst (Sound d) idle sound)))
