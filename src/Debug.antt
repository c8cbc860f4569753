-- ===== src/Debug.antt =====
-- debug.c: the interrupt counters of a DEBUG build, one for each of the 32 interrupt bits.
pub mod Counts
use fscc_linux.Prelude.{
  ℕ, zero, suc, ◌+◌, ◌/◌, ◌%◌, ◌^◌, List, [], ◌∷◌, if◌then◌else◌, ◌==◌, get_or, replicate, bit_and,
}
use fscc_linux.Kernel.{Trace, kfree, truthy, u32}

-- struct debug_interrupt_tracker, as the array of `unsigned` that the code takes it for.
abbrev pub Tracker : Type 0
Tracker = List ℕ

-- debug_interrupt_tracker_new
unfoldable pub new_tracker : Tracker
new_tracker = replicate 32 0

-- The loop over the counters that are left.
unfoldable pub increment_from : Tracker → ℕ → Tracker
increment_from [] isr_value = []
increment_from (counter ∷ tracker) isr_value =
    (if truthy (bit_and isr_value 0x00000001) then u32 (counter + 1) else counter)
    ∷ increment_from tracker (isr_value / 2)

unfoldable pub increment_all : Tracker → ℕ → Tracker
increment_all tracker isr_value =
    if isr_value == 0 then tracker else increment_from tracker isr_value

-- The loop `while (isr_bit)`; a 32-bit value is 0 after 32 rounds.
unfoldable pub shift_out : ℕ → ℕ → ℕ → ℕ
shift_out zero isr_bit i = i
shift_out (suc fuel) isr_bit i =
    let rest = shift_out fuel (isr_bit / 2) (i + 1) in if truthy isr_bit then rest else i

unfoldable pub get_count : Tracker → ℕ → ℕ
get_count tracker isr_bit =
    if truthy isr_bit then get_or tracker (shift_out 32 (isr_bit / 2) 0) 0 else 0

-- debug_interrupt_tracker_delete, on a pointer
unfoldable pub delete_tracker : ℕ → Trace → Trace
delete_tracker tracker t = if truthy tracker then kfree ∷ t else t

-- port.c: fscc_port_get_interrupt_count and fscc_port_increment_interrupt_counts, on the port's
-- tracker
abbrev pub get_interrupt_count : Tracker → ℕ → ℕ
get_interrupt_count interrupt_tracker isr_bit = get_count interrupt_tracker isr_bit

abbrev pub increment_interrupt_counts : Tracker → ℕ → Tracker
increment_interrupt_counts interrupt_tracker isr_value = increment_all interrupt_tracker isr_value
