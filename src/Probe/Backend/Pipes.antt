-- ===== src/Probe/Backend/Pipes.antt =====
-- The pipes that the scan finds, and when it ends.
use smsc95xx_macos.Base.{
  ℕ, zero, suc, ◌+◌, ◌≤◌, ◌<◌, ◌≡◌, ◌⊎◌, if-cases, inl, inr, refl, sym, subst, Bool, true, false,
  ◌&&◌, Option, none, some, if◌then◌else◌, ◌==◌, leb, u8, arith,
}
use smsc95xx_macos.Driver.Status.{is_success}
use smsc95xx_macos.Probe.Backend.{
  Interface, Direction, usb_in, usb_out, usb_any, is_in, is_out, take_pipe, scan_pipes,
}

-- Whether the pipe is a bulk pipe of the direction that `wanted` tells.
unfoldable pub is_bulk : (Direction → Bool) → Interface → ℕ → Bool
is_bulk wanted f pipe =
    let (kr, direction, bulk) = f.properties pipe in is_success kr && (bulk && wanted direction)

-- `i` is the first of the pipes from 1 and below `k` that `test` holds of, and 0 if there is none.
abbrev pub IsFirst : (ℕ → Bool) → ℕ → ℕ → Type 0
IsFirst test k i =
    ((q : ℕ) → 1 ≤ q → q < k → (i ≡ 0) ⊎ (q < i) → test q ≡ false)
    × ((i ≡ 0) ⊎ ((test i ≡ true) × (1 ≤ i) × (i < k)))

pub IsFirst-step :
    (test : ℕ → Bool) (k i : ℕ)
    → 1 ≤ k
    → IsFirst test k i
    → IsFirst test (k + 1) (if test k && i == 0 then k else i)
IsFirst-step test k i low (before, it) =
    if-cases (IsFirst test (k + 1)) (test k && i == 0) k i
      (λ yes. (
        (λ q one below up. ground (arith, before q one, up, below, yes)),
        inr (ground (arith, yes, low)),
      ))
      (λ no. (
        (λ q one below up. ground (arith, before q one, up, below, no, q ≡ k)),
        ground (arith, it),
      ))

-- Both pipes, of the interface's `k - 1` first.
abbrev pub Scanned : Interface → ℕ → ℕ × ℕ → Type 0
Scanned f k p = IsFirst (is_bulk is_in f) k p.0 × IsFirst (is_bulk is_out f) k p.1

is_in-is_out : (d : Direction) → is_in d ≡ true → is_out d ≡ false
unfolding is_in is_out
is_in-is_out usb_in h = refl
is_in-is_out usb_out h = cc
is_in-is_out usb_any h = refl

take_pipe_lem :
    (f : Interface) (pipe i o : ℕ)
    → take_pipe f pipe (i, o) ≡ (
      (if is_bulk is_in f pipe && i == 0 then pipe else i),
      (if is_bulk is_out f pipe && o == 0 then pipe else o),
    )
unfolding take_pipe is_bulk
take_pipe_lem f pipe i o = ground (arith, is_in-is_out (f.properties pipe).1)

step-Scanned :
    (f : Interface) (k : ℕ) (p : ℕ × ℕ)
    → 1 ≤ k
    → Scanned f k p
    → Scanned f (k + 1) (take_pipe f k p)
step-Scanned f k (i, o) low (first, second) =
    subst (Scanned f (k + 1)) (sym (take_pipe_lem f k i o))
      (IsFirst-step (is_bulk is_in f) k i low first, IsFirst-step (is_bulk is_out f) k o low second)

next : (f : Interface) (k : ℕ) → f.count < 255 → leb k f.count ≡ true → k + 1 ≡ u8 (k + 1)
next f k few more = ground (arith, more)

over : (f : Interface) (k : ℕ) → k ≤ f.count + 1 → leb k f.count ≡ false → k ≡ f.count + 1
over f k most done = ground (arith, done)

scan-Scanned :
    (f : Interface) (n k : ℕ) (p : ℕ × ℕ)
    → f.count < 255
    → 1 ≤ k
    → k ≤ f.count + 1
    → f.count + 1 < n + k
    → Scanned f k p
    → (r : ℕ × ℕ) × (scan_pipes f n k p ≡ some r) × Scanned f (f.count + 1) r
unfolding scan_pipes
scan-Scanned f zero k p few low most fuel h = absurd (omega arith)
scan-Scanned f (suc n) k p few low most fuel h =
    let P = λ (o : Option (ℕ × ℕ)). (r : ℕ × ℕ) × (o ≡ some r) × Scanned f (f.count + 1) r in
    if-cases P (leb k f.count) (scan_pipes f n (u8 (k + 1)) (take_pipe f k p)) (some p)
      (λ more.
        subst (λ (m : ℕ). P (scan_pipes f n m (take_pipe f k p))) (next f k few more)
          (scan-Scanned f n (k + 1) (take_pipe f k p) few (omega arith) (ground (arith, more))
            (omega arith) (step-Scanned f k p low h)))
      (λ done. (p, refl, subst (λ (m : ℕ). Scanned f m p) (over f k most done) h))

scan-stuck :
    (f : Interface) (n k : ℕ) (p : ℕ × ℕ) → f.count ≡ 255 → k ≤ 255 → scan_pipes f n k p ≡ none
unfolding scan_pipes
scan-stuck f zero k p all low = refl
scan-stuck f (suc n) k p all low =
    ground (arith, scan-stuck f n (u8 (k + 1)) (take_pipe f k p) all (omega arith))

-- The search for the bulk pipes of an interface of up to 254 pipes ends, with fuel 256, and gives for
-- each direction the first bulk pipe of that direction, or 0 if there is none. With 255 pipes, the most
-- that the count can say, its counter wraps around and it ends on no amount of fuel.
pub scan_pipes-ends :
    (f : Interface)
    → (f.count < 255
        → (r : ℕ × ℕ) × (scan_pipes f 256 1 (0, 0) ≡ some r) × Scanned f (f.count + 1) r)
      × (f.count ≡ 255 → (n : ℕ) → scan_pipes f n 1 (0, 0) ≡ none)
scan_pipes-ends f = (
  (λ few.
      scan-Scanned f 256 1 (0, 0) few (omega arith) (omega arith) (omega arith)
        (
          ((λ q one below up. absurd (omega arith)), inl refl),
          ((λ q one below up. absurd (omega arith)), inl refl),
        )),
  (λ all n. scan-stuck f n 1 (0, 0) all (omega arith)),
)
