-- ===== src/Base/Bits.antt =====
-- `&`, `|` and single bits of words of any width: the digit of a number at a place, and the laws
-- that say what `bit_and` and `bit_or` do there.
use Prim.Native.Nat.{
  ℕ, zero, suc, ◌+◌, ◌-◌, ◌*◌, ◌/◌, ◌%◌, ◌^◌, ◌≤◌, ◌<◌, min, max, bit_and, bit_or, digits, bitwise,
  bit_and-bitwise, bit_or-bitwise,
}
use mathlib.Core.Path.{◌≡◌, refl, ap, ◌∙◌}
use native.Mathlib.Nat.{div-div-eq-div-mul, le_refl, one-le-pow, pow-suc}
use native.Mathlib.Omega.{arith}

-- The fuel of the native definition is only a bound: any two that suffice agree.
module _ (z : ℕ → ℕ) (f : ℕ → ℕ → ℕ) where
  digits_bound : (n m a b : ℕ) → a ≤ n → a ≤ m → digits z f n a b ≡ digits z f m a b
  digits_bound zero zero a b p q = refl
  digits_bound zero (suc m) zero b p q = refl
  digits_bound (suc n) zero zero b p q = refl
  digits_bound (suc n) (suc m) zero b p q = refl
  digits_bound zero m (suc a) b p q = absurd (omega arith)
  digits_bound (suc n) zero (suc a) b p q = absurd (omega arith)
  digits_bound (suc n) (suc m) (suc a) b p q =
      rw (digits_bound n m (suc a / 2) (b / 2) (omega arith) (omega arith))

  bitwise_digit :
      (a b : ℕ)
      → bitwise z f (suc a) b ≡ bitwise z f (suc a / 2) (b / 2) * 2 + f (suc a % 2) (b % 2)
  bitwise_digit a b =
      omega (arith, digits_bound a (suc a / 2) (suc a / 2) (b / 2) (omega arith) (le_refl _))

bit_and_digit : (a b : ℕ) → bit_and a b ≡ bit_and (a / 2) (b / 2) * 2 + min (a % 2) (b % 2)
bit_and_digit zero b = simp bit_and-bitwise (omega arith)
bit_and_digit (suc a) b = simp bit_and-bitwise (bitwise_digit (λ _. 0) min a b)

bit_or_digit : (a b : ℕ) → bit_or a b ≡ bit_or (a / 2) (b / 2) * 2 + max (a % 2) (b % 2)
bit_or_digit zero b = simp bit_or-bitwise (omega arith)
bit_or_digit (suc a) b = simp bit_or-bitwise (bitwise_digit (λ y. y) max a b)

-- The binary digit of `v` at place `k`.
abbrev pub bit : ℕ → ℕ → ℕ
bit zero v = v % 2
bit (suc k) v = bit k (v / 2)

pub bit-bit_and : (k a b : ℕ) → bit k (bit_and a b) ≡ min (bit k a) (bit k b)
bit-bit_and zero a b = omega (arith, bit_and_digit a b)
bit-bit_and (suc k) a b =
    let halves : bit_and a b / 2 ≡ bit_and (a / 2) (b / 2) = omega (arith, bit_and_digit a b) in
    ap (bit k) halves ∙ bit-bit_and k (a / 2) (b / 2)

pub bit-bit_or : (k a b : ℕ) → bit k (bit_or a b) ≡ max (bit k a) (bit k b)
bit-bit_or zero a b = omega (arith, bit_or_digit a b)
bit-bit_or (suc k) a b =
    let halves : bit_or a b / 2 ≡ bit_or (a / 2) (b / 2) = omega (arith, bit_or_digit a b) in
    ap (bit k) halves ∙ bit-bit_or k (a / 2) (b / 2)

and_zero_below : (n a : ℕ) → a ≤ n → bit_and a 0 ≡ 0
and_zero_below n zero h = refl
and_zero_below zero (suc a) h = absurd (omega arith)
and_zero_below (suc n) (suc a) h =
    omega (arith, bit_and_digit (suc a) 0, and_zero_below n (suc a / 2) (omega arith))

pub bit_and-zero : (a : ℕ) → bit_and a 0 ≡ 0
bit_and-zero a = and_zero_below a a (le_refl a)

or_zero_below : (n a : ℕ) → a ≤ n → bit_or a 0 ≡ a
or_zero_below n zero h = refl
or_zero_below zero (suc a) h = absurd (omega arith)
or_zero_below (suc n) (suc a) h =
    omega (arith, bit_or_digit (suc a) 0, or_zero_below n (suc a / 2) (omega arith))

pub bit_or-zero : (a : ℕ) → bit_or a 0 ≡ a
bit_or-zero a = or_zero_below a a (le_refl a)

-- `v & (1 << k)` is the digit at `k`, in its place.
pub bit_and_one_bit : (k v : ℕ) → bit_and v (2 ^ k) ≡ bit k v * 2 ^ k
bit_and_one_bit zero v = omega (arith, bit_and_digit v 1, bit_and-zero (v / 2))
bit_and_one_bit (suc k) v = omega (
  arith,
  bit_and_digit v (2 ^ suc k),
  bit_and_one_bit k (v / 2),
  pow-suc 2 k,
  ap (λ (t : ℕ). bit k (v / 2) * t) (pow-suc 2 k),
  ap (bit_and (v / 2)) (half k),
)
  where
    half : (k : ℕ) → 2 ^ suc k / 2 ≡ 2 ^ k
    half k = omega (arith, pow-suc 2 k)

twice_place : (q k : ℕ) → q * 2 ^ suc k ≡ 2 * (q * 2 ^ k)
twice_place q k = omega (arith, ap (λ (t : ℕ). q * t) (pow-suc 2 k))

low_of_sum : (k hi lo : ℕ) → lo < 2 ^ k → bit_and (hi * 2 ^ k + lo) (2 ^ k - 1) ≡ lo
low_of_sum zero hi lo h = rw bit_and-zero (omega arith)
low_of_sum (suc k) hi lo h = ground (
  arith,
  bit_and_digit (hi * 2 ^ suc k + lo) (2 ^ suc k - 1),
  low_of_sum k hi (lo / 2) (omega (arith, pow-suc 2 k)),
  twice_place hi k,
  pow-suc 2 k,
)

-- `v & ((1 << k) - 1)` is the remainder by `1 << k`.
pub bit_and_low : (k v : ℕ) → bit_and v (2 ^ k - 1) ≡ v % 2 ^ k
bit_and_low k v = ground (arith, one-le-pow k 2, low_of_sum k (v / 2 ^ k) (v % 2 ^ k))

-- `|` of two numbers whose digits do not meet is their sum.
pub bit_or_disjoint : (k hi lo : ℕ) → lo < 2 ^ k → bit_or (hi * 2 ^ k) lo ≡ hi * 2 ^ k + lo
bit_or_disjoint zero hi lo h = ground (arith, bit_or-zero hi)
bit_or_disjoint (suc k) hi lo h = ground (
  arith,
  bit_or_digit (hi * 2 ^ suc k) lo,
  bit_or_disjoint k hi (lo / 2) (omega (arith, pow-suc 2 k)),
  twice_place hi k,
)

bit_or_comm_below : (n a b : ℕ) → a ≤ n → b ≤ n → bit_or a b ≡ bit_or b a
bit_or_comm_below n zero zero p q = refl
bit_or_comm_below zero zero (suc b) p q = absurd (omega arith)
bit_or_comm_below zero (suc a) b p q = absurd (omega arith)
bit_or_comm_below (suc n) zero (suc b) p q = omega (
  arith,
  bit_or_digit 0 (suc b),
  bit_or_digit (suc b) 0,
  bit_or_comm_below n 0 (suc b / 2) (omega arith) (omega arith),
)
bit_or_comm_below (suc n) (suc a) b p q = omega (
  arith,
  bit_or_digit (suc a) b,
  bit_or_digit b (suc a),
  bit_or_comm_below n (suc a / 2) (b / 2) (omega arith) (omega arith),
)

pub bit_or_comm : (a b : ℕ) → bit_or a b ≡ bit_or b a
bit_or_comm a b = bit_or_comm_below (a + b) a b (omega arith) (omega arith)

half_place : (m k : ℕ) → m * 2 ^ suc k / 2 ≡ m * 2 ^ k
half_place m k = omega (arith, twice_place m k)

div_place : (v k : ℕ) → v / 2 / 2 ^ k ≡ v / 2 ^ suc k
div_place v k = div-div-eq-div-mul v 2 (2 ^ k) ∙ ap (λ (t : ℕ). v / t) (omega (arith, pow-suc 2 k))

times_one : (m : ℕ) → m * 2 ^ 0 ≡ m
times_one m = omega arith

over_one : (v : ℕ) → v / 2 ^ 0 ≡ v
over_one v = omega arith

-- A mask above `k` zeros sees only the digits from `k` on.
pub bit_and_shifted : (k v m : ℕ) → bit_and v (m * 2 ^ k) ≡ bit_and (v / 2 ^ k) m * 2 ^ k
bit_and_shifted zero v m =
    omega (arith, ap (bit_and v) (times_one m), ap (λ (t : ℕ). bit_and t m) (over_one v))
bit_and_shifted (suc k) v m = omega (
  arith,
  bit_and_digit v (m * 2 ^ suc k),
  bit_and_shifted k (v / 2) m,
  twice_place m k,
  twice_place (bit_and (v / 2 / 2 ^ k) m) k,
  ap (bit_and (v / 2)) (half_place m k),
  ap (λ (t : ℕ). bit_and t m * 2 ^ suc k) (div_place v k),
)

-- `|` works on the part above a place and on the part below it.
pub bit_or_split :
    (k hi lo hi' lo' : ℕ)
    → lo < 2 ^ k
    → lo' < 2 ^ k
    → bit_or (hi * 2 ^ k + lo) (hi' * 2 ^ k + lo') ≡ bit_or hi hi' * 2 ^ k + bit_or lo lo'
bit_or_split zero hi lo hi' lo' p q = ground arith
bit_or_split (suc k) hi lo hi' lo' p q = ground (
  arith,
  bit_or_digit (hi * 2 ^ suc k + lo) (hi' * 2 ^ suc k + lo'),
  bit_or_digit lo lo',
  bit_or_split k hi (lo / 2) hi' (lo' / 2) (omega (arith, pow-suc 2 k))
      (omega (arith, pow-suc 2 k)),
  twice_place hi k,
  twice_place hi' k,
  twice_place (bit_or hi hi') k,
)
