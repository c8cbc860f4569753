-- ===== src/ClockBits/Double.antt =====
-- The arithmetic of C's `double`, in the binary64 format, rounding to the nearest, ties to even.
-- A finite double is a whole number of units of 2^-1074. Infinities and NaN are left out: the
-- clock search divides by no zero, and none of its values comes near 2^1024.
use fscc_linux.Prelude.{
  ℕ, zero, suc, ◌+◌, ◌-◌, ◌*◌, ◌/◌, ◌%◌, ◌^◌, Bool, false, not, ◌&&◌, ◌||◌, if◌then◌else◌, ltb, leb,
  ◌==◌,
}

pub record Double : Type 0 where
  pub negative : Bool
  pub units : ℕ

abbrev pub scale : ℕ
scale = 2 ^ 1074

-- The number of binary digits of an `n` below `2 ^ 2 ^ k`.
unfoldable pub width : ℕ → ℕ → ℕ
width zero n = n
width (suc k) n =
    let shift = if ltb n (2 ^ 2 ^ k) then 0 else 2 ^ k in shift + width k (n / 2 ^ shift)

-- The double nearest to `num / den` units: 53 digits are kept.
unfoldable pub nearest : ℕ → ℕ → ℕ
nearest num den =
    let shift = width 12 (num / den) - 53 in
    let step = den * 2 ^ shift in
    let kept = num / step in
    let rest = 2 * (num % step) in
    let up = ltb step rest || rest == step && kept % 2 == 1 in
    (if up then kept + 1 else kept) * 2 ^ shift

-- The conversion of an integer.
unfoldable pub of_nat : ℕ → Double
of_nat n = record { negative = false; units = nearest (n * scale) 1 }

-- The literal `m / 10 ^ k`.
unfoldable pub decimal : ℕ → ℕ → Double
decimal m k = record { negative = false; units = nearest (m * scale) (10 ^ k) }

-- `a != b` on signs.
unfoldable pub differ : Bool → Bool → Bool
differ a b = if a then not b else b

infixl 70 ◌×d◌ ◌÷d◌
unfoldable pub ◌×d◌ : Double → Double → Double
a ×d b = record {
  negative = differ a.negative b.negative;
  units = nearest (a.units * b.units) scale;
}

unfoldable pub ◌÷d◌ : Double → Double → Double
a ÷d b = record {
  negative = differ a.negative b.negative;
  units = nearest (a.units * scale) b.units;
}

-- `a + b` where `b` has the sign given: like signs add, others leave the sign of the greater.
unfoldable pub add_signed : Double → Bool → ℕ → Double
add_signed a sign b =
    if differ a.negative sign
    then (if ltb a.units b
        then record { negative = sign; units = nearest (b - a.units) 1 }
        else record {
          negative = a.negative && not (a.units == b);
          units = nearest (a.units - b) 1;
        })
    else record { negative = sign; units = nearest (a.units + b) 1 }

infixl 65 ◌-d◌
unfoldable pub ◌-d◌ : Double → Double → Double
a -d b = add_signed a (not b.negative) b.units

unfoldable pub fabs : Double → Double
fabs a = record { negative = false; units = a.units }

-- The integer part of a square root, its digits from `2 ^ k` down: `root` holds those above.
unfoldable pub root_digits : ℕ → ℕ → ℕ → ℕ
root_digits zero n root = root
root_digits (suc k) n root =
    let next = root + 2 ^ k in root_digits k n (if leb (next * next) n then next else root)

-- The square root of a double that is not negative. An inexact root is told from its integer part
-- by half a unit more, which is far below its last digit.
unfoldable pub sqrt : Double → Double
sqrt a =
    let square = a.units * scale in
    let root = root_digits 1600 square 0 in
    record {
      negative = false;
      units = nearest (2 * root + (if root * root == square then 0 else 1)) 2;
    }

-- `a < b`; a zero has either sign.
unfoldable pub less : Double → Double → Bool
less a b =
    if a.negative
    then (if b.negative then ltb b.units a.units else ltb 0 (a.units + b.units))
    else not b.negative && ltb a.units b.units

-- `(int) a` as its 32-bit pattern, toward zero. Out of range C leaves it open, and x86 gives the
-- least integer.
unfoldable pub to_int : Double → ℕ
to_int a =
    let n = a.units / scale in
    if ltb n (2 ^ 31) then (if a.negative then (2 ^ 32 - n) % 2 ^ 32 else n) else 2 ^ 31
