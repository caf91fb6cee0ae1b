-- ===== src/Common/Bits.antt =====
-- Masks and disjoint fields of machine words as arithmetic, for `bit_and` and `bit_or` at variables.
use native.Mathlib.Omega.{arith}
use mathlib.Core.Logic.{inl, inr}
use mathlib.Core.Bool.{Bool, true, false}
use mathlib.Core.Path.{refl, ◌≡◌}
use Prim.Native.Nat.{
  ℕ, zero, suc, digits, bit_or, bit_and, bit_or-bitwise, bit_and-bitwise, max, min, ◌+◌, ◌*◌, ◌/◌,
  ◌%◌, ◌<◌, ◌≤◌,
}
use swishxx.Common.Tests.{Bool-cases, ==_iff, ◌==◌, if◌then◌else◌}

-- A test of every number below a bound, by computation.
unfoldable pub passes_below : (ℕ → Bool) → ℕ → Bool
passes_below test zero = true
passes_below test (suc bound) = if test bound then passes_below test bound else false

pub passes_below-each :
    (test : ℕ → Bool) (bound : ℕ)
    → passes_below test bound ≡ true
    → (i : ℕ) → i < bound
    → test i ≡ true
unfolding passes_below
passes_below-each test zero all i below = absurd (omega arith)
passes_below-each test (suc bound) all i below = elim (Bool-cases (i == bound)) [
  | inl same ↦ ground arith
  | inr other ↦ passes_below-each test bound (ground arith) i (ground arith)
]

-- What agrees at every number below a bound.
agree_below :
    (f g : ℕ → ℕ) (bound : ℕ)
    → passes_below (λ i. f i == g i) bound ≡ true
    → (i : ℕ) → i < bound
    → f i ≡ g i
agree_below f g bound all i below =
    (==_iff (f i) (g i)).0 (passes_below-each (λ k. f k == g k) bound all i below)

-- The library's bit operations go through the digits on fuel; how much there is does not matter, if it is
-- enough for the first number.
module _ (last : ℕ → ℕ) (op : ℕ → ℕ → ℕ) where
  fuel_free :
      (x y fuel fuel' : ℕ)
      → x ≤ fuel
      → x ≤ fuel'
      → digits last op fuel x y ≡ digits last op fuel' x y
  fuel_free zero y zero zero h h' = refl
  fuel_free zero y zero (suc fuel') h h' = refl
  fuel_free zero y (suc fuel) zero h h' = refl
  fuel_free zero y (suc fuel) (suc fuel') h h' = refl
  fuel_free (suc x) y zero fuel' h h' = absurd (omega arith)
  fuel_free (suc x) y (suc fuel) zero h h' = absurd (omega arith)
  fuel_free (suc x) y (suc fuel) (suc fuel') h h' =
      rw (fuel_free (suc x / 2) (y / 2) fuel fuel' (omega arith) (omega arith))

-- The lowest bit, and the others.
and_step : (x y : ℕ) → min (x % 2) (y % 2) + 2 * bit_and (x / 2) (y / 2) ≡ bit_and x y
and_step zero y = omega (arith, bit_and-bitwise 0 (y / 2), bit_and-bitwise 0 y)
and_step (suc x) y =
    let half = suc x / 2 in
    let enough = fuel_free (λ k. 0) min half (y / 2) x half (omega arith) (omega arith) in
    omega (arith, enough, bit_and-bitwise half (y / 2), bit_and-bitwise (suc x) y)

or_step : (x y : ℕ) → max (x % 2) (y % 2) + 2 * bit_or (x / 2) (y / 2) ≡ bit_or x y
or_step zero y = omega (arith, bit_or-bitwise 0 (y / 2), bit_or-bitwise 0 y)
or_step (suc x) y =
    let half = suc x / 2 in
    let enough = fuel_free (λ k. k) max half (y / 2) x half (omega arith) (omega arith) in
    omega (arith, enough, bit_or-bitwise half (y / 2), bit_or-bitwise (suc x) y)

and_zero_fuel : (n a : ℕ) → a ≤ n → bit_and a 0 ≡ 0
and_zero_fuel n zero h = refl
and_zero_fuel zero (suc a) h = absurd (omega arith)
and_zero_fuel (suc n) (suc a) h =
    omega (arith, and_step (suc a) 0, and_zero_fuel n (suc a / 2) (omega arith))

or_zero_fuel : (n a : ℕ) → a ≤ n → bit_or a 0 ≡ a
or_zero_fuel n zero h = refl
or_zero_fuel zero (suc a) h = absurd (omega arith)
or_zero_fuel (suc n) (suc a) h =
    omega (arith, or_step (suc a) 0, or_zero_fuel n (suc a / 2) (omega arith))

pub bit_and-zero : (a : ℕ) → bit_and a 0 ≡ 0
bit_and-zero a = and_zero_fuel a a (omega arith)

pub bit_or-zero : (a : ℕ) → bit_or a 0 ≡ a
bit_or-zero a = or_zero_fuel a a (omega arith)

and_1 : (a : ℕ) → bit_and a 1 ≡ a % 2
and_1 a = omega (arith, and_step a 1, bit_and-zero (a / 2))

and_3 : (a : ℕ) → bit_and a 3 ≡ a % 4
and_3 a = omega (arith, and_step a 3, and_1 (a / 2))

pub bit_and_7 : (a : ℕ) → bit_and a 0x7 ≡ a % 8
bit_and_7 a = omega (arith, and_step a 7, and_3 (a / 2))

and_15 : (a : ℕ) → bit_and a 0xf ≡ a % 16
and_15 a = omega (arith, and_step a 15, bit_and_7 (a / 2))

and_31 : (a : ℕ) → bit_and a 0x1f ≡ a % 32
and_31 a = omega (arith, and_step a 31, and_15 (a / 2))

and_63 : (a : ℕ) → bit_and a 0x3f ≡ a % 64
and_63 a = omega (arith, and_step a 63, and_31 (a / 2))

pub bit_and_127 : (a : ℕ) → bit_and a 0x7f ≡ a % 128
bit_and_127 a = omega (arith, and_step a 127, and_63 (a / 2))

-- A field of `k` bits under a number shifted past it.
or_2 : (q r : ℕ) → r < 2 → bit_or (2 * q) r ≡ 2 * q + r
or_2 q r h = omega (arith, or_step (2 * q) r, bit_or_half)
  where
    bit_or_half : bit_or (2 * q / 2) (r / 2) ≡ q
    bit_or_half =
        let e : 2 * q / 2 ≡ q = omega arith in
        let f : r / 2 ≡ 0 = omega arith in rw (e, f) (bit_or-zero q)

-- One more bit: from fields of width `m` to width `2 * m`.
or_double :
    (m q r : ℕ) → bit_or (m * q) (r / 2) ≡ m * q + r / 2 → bit_or (2 * (m * q)) r ≡ 2 * (m * q) + r
or_double m q r ih = omega (arith, or_step (2 * (m * q)) r, halved)
  where
    halved : bit_or (2 * (m * q) / 2) (r / 2) ≡ m * q + r / 2
    halved = let e : 2 * (m * q) / 2 ≡ m * q = omega arith in rw e ih

or_4 : (q r : ℕ) → r < 4 → bit_or (4 * q) r ≡ 4 * q + r
or_4 q r h =
    let e : 4 * q ≡ 2 * (2 * q) = omega arith in
    rw e (or_double 2 q r (or_2 q (r / 2) (omega arith)))

or_8 : (q r : ℕ) → r < 8 → bit_or (8 * q) r ≡ 8 * q + r
or_8 q r h =
    let e : 8 * q ≡ 2 * (4 * q) = omega arith in
    rw e (or_double 4 q r (or_4 q (r / 2) (omega arith)))

pub or_16 : (q r : ℕ) → r < 16 → bit_or (16 * q) r ≡ 16 * q + r
or_16 q r h =
    let e : 16 * q ≡ 2 * (8 * q) = omega arith in
    rw e (or_double 8 q r (or_8 q (r / 2) (omega arith)))

or_32 : (q r : ℕ) → r < 32 → bit_or (32 * q) r ≡ 32 * q + r
or_32 q r h =
    let e : 32 * q ≡ 2 * (16 * q) = omega arith in
    rw e (or_double 16 q r (or_16 q (r / 2) (omega arith)))

or_64 : (q r : ℕ) → r < 64 → bit_or (64 * q) r ≡ 64 * q + r
or_64 q r h =
    let e : 64 * q ≡ 2 * (32 * q) = omega arith in
    rw e (or_double 32 q r (or_32 q (r / 2) (omega arith)))

pub or_128 : (q r : ℕ) → r < 128 → bit_or (128 * q) r ≡ 128 * q + r
or_128 q r h =
    let e : 128 * q ≡ 2 * (64 * q) = omega arith in
    rw e (or_double 64 q r (or_64 q (r / 2) (omega arith)))

-- Facts about one byte.
pub bit_and_top : (b : ℕ) → b < 256 → bit_and b 0x80 ≡ b / 128 * 128
unfolding passes_below
bit_and_top b = agree_below (λ y. bit_and y 0x80) (λ y. y / 128 * 128) 256 refl b

pub or_top : (r : ℕ) → r < 128 → bit_or 0x80 r ≡ 128 + r
or_top r h = or_128 1 r h
