-- ===== src/Prelude/Bits.antt =====
-- `&` and `|` with the masks of the driver, as arithmetic on native numbers.
use Prim.Native.Nat.{
  ℕ, zero, suc, ◌+◌, ◌*◌, ◌/◌, ◌%◌, ◌≤◌, min, max, bit_and, bit_or, digits, bitwise,
  bit_and-bitwise, bit_or-bitwise,
}
use mathlib.Core.Path.{◌≡◌, refl, ap, ap₂}
use native.Mathlib.Omega.{arith}

-- The fuel of `digits` does not matter, once it is as much as the first number.
module _ (empty : ℕ → ℕ) (op : ℕ → ℕ → ℕ) where
  digits-enough :
      (bound fuel v w : ℕ) → v ≤ bound → v ≤ fuel → digits empty op fuel v w ≡ digits empty op v v w
  digits-enough bound zero zero w below enough = refl
  digits-enough bound (suc fuel) zero w below enough = refl
  digits-enough zero fuel (suc v) w below enough = absurd (omega arith)
  digits-enough (suc bound) zero (suc v) w below enough = absurd (omega arith)
  digits-enough (suc bound) (suc fuel) (suc v) w below enough = omega (
    arith,
    digits-enough bound fuel (suc v / 2) (w / 2) (omega arith) (omega arith),
    digits-enough bound v (suc v / 2) (w / 2) (omega arith) (omega arith),
  )

  -- The lowest digit, and the others.
  bitwise_halves :
      (v w : ℕ)
      → bitwise empty op (suc v) w
        ≡ op (suc v % 2) (w % 2) + 2 * bitwise empty op (suc v / 2) (w / 2)
  bitwise_halves v w =
      omega (arith, digits-enough v v (suc v / 2) (w / 2) (omega arith) (omega arith))

pub bit_and_step : (v w : ℕ) → bit_and v w ≡ min (v % 2) (w % 2) + 2 * bit_and (v / 2) (w / 2)
bit_and_step zero w = omega (arith, bit_and-bitwise)
bit_and_step (suc v) w = simp bit_and-bitwise (bitwise_halves (λ n. 0) min v w)

pub bit_or_step : (v w : ℕ) → bit_or v w ≡ max (v % 2) (w % 2) + 2 * bit_or (v / 2) (w / 2)
bit_or_step zero w = simp bit_or-bitwise (omega arith)
bit_or_step (suc v) w = simp bit_or-bitwise (bitwise_halves (λ n. n) max v w)

-- What a mask of no bits does.
zero_masks : (bound v : ℕ) → v ≤ bound → (bit_and v 0 ≡ 0) × (bit_or v 0 ≡ v)
zero_masks zero v below = let e : v ≡ 0 = omega arith in rw e (refl, refl)
zero_masks (suc bound) v below =
    let halves = zero_masks bound (v / 2) (omega arith) in
    (omega (arith, bit_and_step v 0, halves), omega (arith, bit_or_step v 0, halves))

pub bit_and-zero : (v : ℕ) → bit_and v 0 ≡ 0
bit_and-zero v = (zero_masks v v (omega arith)).0

pub bit_or-zero : (v : ℕ) → bit_or v 0 ≡ v
bit_or-zero v = (zero_masks v v (omega arith)).1

-- The digits of a result.
bit_or-half : (a b : ℕ) → bit_or a b / 2 ≡ bit_or (a / 2) (b / 2)
bit_or-half a b = omega (arith, bit_or_step a b)

bit_and-half : (a b : ℕ) → bit_and a b / 2 ≡ bit_and (a / 2) (b / 2)
bit_and-half a b = omega (arith, bit_and_step a b)

pub zero-bit_and : (b : ℕ) → bit_and 0 b ≡ 0
zero-bit_and b = bit_and-bitwise 0 b

bit_and-bit_or_fuel :
    (n a b m : ℕ) → a ≤ n → b ≤ n → bit_and (bit_or a b) m ≡ bit_or (bit_and a m) (bit_and b m)
bit_and-bit_or_fuel zero a b m ha hb =
    let ea : a ≡ 0 = omega arith in let eb : b ≡ 0 = omega arith in rw (ea, eb, zero-bit_and)
bit_and-bit_or_fuel (suc n) a b m ha hb = omega (
  arith,
  bit_and_step (bit_or a b) m,
  bit_or_step (bit_and a m) (bit_and b m),
  bit_or_step a b,
  bit_and_step a m,
  bit_and_step b m,
  ap (λ x. bit_and x (m / 2)) (bit_or-half a b),
  ap₂ bit_or (bit_and-half a m) (bit_and-half b m),
  bit_and-bit_or_fuel n (a / 2) (b / 2) (m / 2) (omega arith) (omega arith),
)

-- `&` distributes over `|`, and associates.
pub bit_and-bit_or : (a b m : ℕ) → bit_and (bit_or a b) m ≡ bit_or (bit_and a m) (bit_and b m)
bit_and-bit_or a b m = bit_and-bit_or_fuel (a + b) a b m (omega arith) (omega arith)

bit_and_assoc_fuel : (n a b m : ℕ) → a ≤ n → bit_and (bit_and a b) m ≡ bit_and a (bit_and b m)
bit_and_assoc_fuel zero a b m ha =
    let ea : a ≡ 0 = omega arith in
    rw (ea, zero-bit_and b, zero-bit_and m, zero-bit_and (bit_and b m))
bit_and_assoc_fuel (suc n) a b m ha = omega (
  arith,
  bit_and_step (bit_and a b) m,
  bit_and_step a (bit_and b m),
  bit_and_step a b,
  bit_and_step b m,
  ap (λ x. bit_and x (m / 2)) (bit_and-half a b),
  ap (λ x. bit_and (a / 2) x) (bit_and-half b m),
  bit_and_assoc_fuel n (a / 2) (b / 2) (m / 2) (omega arith),
)

pub bit_and_assoc : (a b m : ℕ) → bit_and (bit_and a b) m ≡ bit_and a (bit_and b m)
bit_and_assoc a b m = bit_and_assoc_fuel a a b m (omega arith)

bit_and_le_bounded : (bound v m : ℕ) → v ≤ bound → bit_and v m ≤ m
bit_and_le_bounded zero v m below =
    let e : v ≡ 0 = omega arith in rw (e, zero-bit_and m) (omega arith)
bit_and_le_bounded (suc bound) v m below =
    omega (arith, bit_and_step v m, bit_and_le_bounded bound (v / 2) (m / 2) (omega arith))

pub bit_and_le : (v m : ℕ) → bit_and v m ≤ m
bit_and_le v m = bit_and_le_bounded v v m (omega arith)

bit_or_ge_bounded : (bound v m : ℕ) → m ≤ bound → m ≤ bit_or v m
bit_or_ge_bounded zero v m below = omega arith
bit_or_ge_bounded (suc bound) v m below =
    omega (arith, bit_or_step v m, bit_or_ge_bounded bound (v / 2) (m / 2) (omega arith))

pub bit_or_ge : (v m : ℕ) → m ≤ bit_or v m
bit_or_ge v m = bit_or_ge_bounded m v m (omega arith)

pub zero-bit_or : (w : ℕ) → bit_or 0 w ≡ w
zero-bit_or w = bit_or-bitwise 0 w
