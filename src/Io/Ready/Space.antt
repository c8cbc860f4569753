-- ===== src/Io/Ready/Space.antt =====
-- io.c: the space that fscc_user_get_tx_space counts.
use fscc_linux.Prelude.{
  ℕ, zero, suc, ◌+◌, ◌*◌, ◌%◌, ◌^◌, ◌≤◌, ◌<◌, ◌≡◌, sym, ap, ◌∙◌, arith, inl, inr, List, true, false,
  Bool-cases, length,
}
use fscc_linux.Offsets.{desc_cstop_bit}
use fscc_linux.State.{IoFrame, Port, control_at, has}
use fscc_linux.Ring.{next_desc_lem, mod-shift, mod-start}
use fscc_linux.Io.Ready.{tx_space, user_get_tx_space}

module _ (frames : List IoFrame) (num tx : ℕ) (few : num < 2 ^ 32) where
  -- Two turns of the loop: a free descriptor, and one in use.
  pub tx_space-free :
      (cur space left : ℕ)
      → cur < num
      → space + tx < 2 ^ 64
      → has (control_at frames cur) desc_cstop_bit ≡ true
      → tx_space frames num tx cur space (suc left)
        ≡ tx_space frames num tx ((cur + 1) % num) (space + tx) left
  unfolding tx_space
  tx_space-free cur space left lt small free =
      rw (free, next_desc_lem cur num lt few)
        (ap (λ s. tx_space frames num tx ((cur + 1) % num) s left) (omega arith))

  tx_space-used :
      (cur space left : ℕ)
      → has (control_at frames cur) desc_cstop_bit ≡ false
      → tx_space frames num tx cur space (suc left) ≡ space
  unfolding tx_space
  tx_space-used cur space left used = rw used

  pub tx_space-le :
      (left cur space : ℕ)
      → cur < num
      → space + left * tx < 2 ^ 64
      → (space ≤ tx_space frames num tx cur space left)
        × (tx_space frames num tx cur space left ≤ space + left * tx)
  unfolding tx_space
  tx_space-le zero cur space lt small = omega arith
  tx_space-le (suc left) cur space lt small =
      elim (Bool-cases (has (control_at frames cur) desc_cstop_bit)) [
        | inl free ↦ omega (
          arith,
          tx_space-free cur space left lt (omega arith) free,
          tx_space-le left ((cur + 1) % num) (space + tx) (omega arith) (omega arith),
        )
        | inr used ↦ omega (arith, tx_space-used cur space left used)
      ]

  -- Every descriptor that the space counts is free.
  pub tx_space-free_ahead :
      (left cur space : ℕ)
      → cur < num
      → space + left * tx < 2 ^ 64
      → (j : ℕ) → j < left
      → space + j * tx < tx_space frames num tx cur space left
      → has (control_at frames ((cur + j) % num)) desc_cstop_bit ≡ true
  tx_space-free_ahead zero cur space lt small j h k = absurd (omega arith)
  tx_space-free_ahead (suc left) cur space lt small zero h k =
      elim (Bool-cases (has (control_at frames cur) desc_cstop_bit)) [
        | inr used ↦ absurd (omega (arith, tx_space-used cur space left used))
        | inl free ↦
            ap (λ (c : ℕ). has (control_at frames c) desc_cstop_bit) (mod-start cur num lt) ∙ free
      ]
  tx_space-free_ahead (suc left) cur space lt small (suc j) h k =
      elim (Bool-cases (has (control_at frames cur) desc_cstop_bit)) [
        | inr used ↦ absurd (omega (arith, tx_space-used cur space left used))
        | inl free ↦
            ap (λ (c : ℕ). has (control_at frames c) desc_cstop_bit) (sym (mod-shift cur j num))
            ∙ tx_space-free_ahead left ((cur + 1) % num) (space + tx) (omega arith) (omega arith) j
                (omega arith) (omega (arith, tx_space-free cur space left lt (omega arith) free))
      ]

-- What the transmit ring of a port satisfies.
pub record IsTxRing (p : Port) : Type 0 where
  pub array : length p.tx_descriptors ≡ p.memory.tx_num
  pub few : p.memory.tx_num < 2 ^ 32
  pub bounded : p.memory.tx_num * p.memory.tx_size < 2 ^ 32
  pub user_in : p.user_tx_desc < p.memory.tx_num
  pub fifo_in : p.fifo_tx_desc < p.memory.tx_num

-- The space is never more than the memory of the transmit descriptors.
pub user_get_tx_space-le :
    (p : Port) → IsTxRing p → user_get_tx_space p ≤ p.memory.tx_num * p.memory.tx_size
unfolding user_get_tx_space
user_get_tx_space-le p v = omega (
  arith,
  tx_space-le p.tx_descriptors p.memory.tx_num p.memory.tx_size v.few p.memory.tx_num p.user_tx_desc
      0 v.user_in (omega (arith, v.bounded)),
)

-- As many descriptors from the user's one on as the bytes of the space fill are free.
pub user_get_tx_space-free :
    (p : Port) (j : ℕ)
    → IsTxRing p
    → j < p.memory.tx_num
    → j * p.memory.tx_size < user_get_tx_space p
    → has (control_at p.tx_descriptors ((p.user_tx_desc + j) % p.memory.tx_num)) desc_cstop_bit
      ≡ true
unfolding user_get_tx_space
user_get_tx_space-free p j v lt h =
    tx_space-free_ahead p.tx_descriptors p.memory.tx_num p.memory.tx_size v.few p.memory.tx_num
      p.user_tx_desc 0 v.user_in (omega (arith, v.bounded)) j lt (omega arith)
