-- ===== src/Debug/Counts.antt =====
-- debug.c: counting interrupts and reading the counters.
use fscc_linux.Prelude.{
  ℕ, zero, suc, ◌+◌, ◌/◌, ◌%◌, ◌^◌, ◌<◌, ◌≡◌, ap, ◌∙◌, arith, [], ◌∷◌, get_or, length,
  if◌then◌else◌, ◌==◌, bit_and, bit_and_step, bit_and-zero,
}
use native.Mathlib.Nat.{pow-suc, one-le-pow, div-div-eq-div-mul}
use fscc_linux.Kernel.{u32}
use fscc_linux.Debug.{Tracker, increment_from, increment_all, shift_out, get_count}

bit_and-one : (a : ℕ) → bit_and a 1 ≡ a % 2
bit_and-one a = omega (arith, bit_and_step a 1, bit_and-zero (a / 2))

div-pow-suc : (v i : ℕ) → v / 2 / 2 ^ i ≡ v / 2 ^ suc i
div-pow-suc v i = div-div-eq-div-mul v 2 (2 ^ i) ∙ ap (λ n. v / n) (omega (arith, pow-suc 2 i))

-- The counter at `i` after the loop.
increment_from_lem :
    (tracker : Tracker) (v i : ℕ)
    → i < length tracker
    → get_or (increment_from tracker v) i 0
      ≡ (if v / 2 ^ i % 2 == 1 then u32 (get_or tracker i 0 + 1) else get_or tracker i 0)
unfolding increment_from
increment_from_lem [] v i h = absurd (omega arith)
increment_from_lem (c ∷ tracker) v zero h = ground (arith, bit_and-one v)
increment_from_lem (c ∷ tracker) v (suc i) h =
    increment_from_lem tracker (v / 2) i (omega arith)
    ∙ ap (λ (n : ℕ). if n % 2 == 1 then u32 (get_or tracker i 0 + 1) else get_or tracker i 0)
        (div-pow-suc v i)

-- The loop that looks for the set bit finds its index.
shift_out_lem : (fuel k i : ℕ) → k < fuel → shift_out fuel (2 ^ k / 2) i ≡ i + k
unfolding shift_out
shift_out_lem zero k i h = absurd (omega arith)
shift_out_lem (suc fuel) zero i h = omega arith
shift_out_lem (suc fuel) (suc k) i h =
    let e : 2 ^ suc k / 2 ≡ 2 ^ k = omega (arith, pow-suc 2 k) in
    rw e (ground (arith, one-le-pow k 2, shift_out_lem fuel k (i + 1)))

-- Counting an interrupt status raises the count that is read for a bit by one, wrapped to 32 bits,
-- if the bit is set in the status, and leaves it otherwise.
pub get_count-increment_all :
    (tracker : Tracker) (v k : ℕ)
    → length tracker ≡ 32
    → k < 32
    → get_count (increment_all tracker v) (2 ^ k) ≡ (
        if v / 2 ^ k % 2 == 1
        then u32 (get_count tracker (2 ^ k) + 1)
        else get_count tracker (2 ^ k))
unfolding get_count increment_all
get_count-increment_all tracker v k len h =
    rw (shift_out_lem 32 k 0 h) (ground (arith, one-le-pow k 2, increment_from_lem tracker v k))
