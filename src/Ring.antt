-- ===== src/Ring.antt =====
-- The descriptor rings: indices that go round, and the bytes that a run of descriptors holds.
use native.Mathlib.Nat.{mod-add-mod, mod-eq_of_lt, mod-eq-sub-mod, add-zero}
use native.Mathlib.Decide.{dec_lt}
use fscc_linux.Prelude.{
  ℕ, zero, suc, ◌+◌, ◌-◌, ◌%◌, ◌^◌, ◌<◌, ◌≡◌, ◌≢◌, ap, arith, List, [], ◌++◌, take,
}
use fscc_linux.State.{IoFrame, frame_at, next_desc}

pub next_desc_lem : (d num : ℕ) → d < num → num < 2 ^ 32 → next_desc d num ≡ (d + 1) % num
unfolding next_desc
next_desc_lem d num h k = elim (dec_lt (d + 1) num) [
  | yes p ↦ ground (arith, mod-eq_of_lt p)
  | no p ↦ ground (
    arith,
    mod-eq-sub-mod {n = d + 1} {m = num} (omega arith),
    mod-eq_of_lt {n = d + 1 - num} {m = num} (omega arith),
  )
]

pub next_desc-lt : (d num : ℕ) → d < num → next_desc d num < num
unfolding next_desc
next_desc-lt d num h = ground arith

-- Fewer than `num` steps round a ring do not come back to the start.
pub add-mod-ne : (c j num : ℕ) → c < num → suc j < num → (c + suc j) % num ≢ c
add-mod-ne c j num hc hj = elim (dec_lt (c + suc j) num) [
  | yes p ↦ omega (arith, mod-eq_of_lt p)
  | no p ↦ omega (
    arith,
    mod-eq-sub-mod {n = c + suc j} {m = num} (omega arith),
    mod-eq_of_lt {n = c + suc j - num} {m = num} (omega arith),
  )
]

pub mod-shift : (c j num : ℕ) → ((c + 1) % num + j) % num ≡ (c + suc j) % num
mod-shift c j num = rw mod-add-mod (ap (λ k. k % num) (omega arith))

pub mod-start : (c num : ℕ) → c < num → (c + 0) % num ≡ c
mod-start c num h = rw add-zero (mod-eq_of_lt h)

-- The bytes of a descriptor, and of `n` descriptors from `cur` on, in the order of the ring.
abbrev pub data_of : IoFrame → List ℕ
data_of f = take f.desc.data_count f.buffer

unfoldable pub gather : List IoFrame → ℕ → ℕ → ℕ → List ℕ
gather frames num cur zero = []
gather frames num cur (suc n) =
    data_of (frame_at frames cur) ++ gather frames num ((cur + 1) % num) n
