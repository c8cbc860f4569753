-- ===== src/State.antt =====
-- The driver's data: `struct fscc_descriptor` and `struct io_frame` (io.h), `struct fscc_memory`
-- (fscc.h) and `struct fscc_port` (port.h).
use fscc_linux.Prelude.{ℕ, ◌+◌, List, ◌∷◌, Bool, if◌then◌else◌, ◌==◌, not, bit_and, get_or}
use fscc_linux.Kernel.{Trace, Event, Timestamp, u32}

-- struct fscc_descriptor, as the card reads it.
pub record Descriptor : Type 0 where
  pub control : ℕ
  pub data_address : ℕ
  pub data_count : ℕ
  pub next_descriptor : ℕ

-- struct io_frame. `buffer` holds the bytes behind the pointer. `buffer_size` and `desc_size` are
-- never used in the source.
pub record IoFrame : Type 0 where
  pub desc : Descriptor
  pub desc_physical_address : ℕ
  pub buffer : List ℕ
  pub timestamp : Timestamp

pub record Memory : Type 0 where
  pub tx_num : ℕ
  pub tx_size : ℕ
  pub rx_num : ℕ
  pub rx_size : ℕ

-- struct fscc_port. `dma_capable` is that of the card behind the port, `force_fifo` the module's
-- parameter. A register of `register_storage` is an `__s64`, kept as its 64-bit pattern; the `int`
-- counters are 32-bit patterns. `rx_array` and `tx_array` say that the array of frames is not NULL.
-- A semaphore is its count. `trace` lists the port's calls of the
-- kernel and the card.
pub record Port : Type 0 where
  pub channel : ℕ
  pub dma_capable : ℕ
  pub force_fifo : ℕ
  pub register_storage : List ℕ
  pub last_isr_value : ℕ
  pub append_status : ℕ
  pub append_timestamp : ℕ
  pub ignore_timeout : ℕ
  pub rx_multiple : ℕ
  pub tx_modifiers : ℕ
  pub memory : Memory
  pub rx_array : Bool
  pub rx_descriptors : List IoFrame
  pub user_rx_desc : ℕ
  pub fifo_rx_desc : ℕ
  pub rx_bytes_in_frame : ℕ
  pub rx_frame_size : ℕ
  pub tx_array : Bool
  pub tx_descriptors : List IoFrame
  pub user_tx_desc : ℕ
  pub fifo_tx_desc : ℕ
  pub tx_bytes_in_frame : ℕ
  pub tx_frame_size : ℕ
  pub read_semaphore : ℕ
  pub write_semaphore : ℕ
  pub trace : Trace

abbrev pub no_time : Timestamp
no_time = record { tv_sec = 0; tv_nsec = 0 }

-- What a read of the frame arrays out of their range gives.
abbrev pub no_frame : IoFrame
no_frame = record {
  desc = record { control = 0; data_address = 0; data_count = 0; next_descriptor = 0 };
  desc_physical_address = 0;
  buffer = List.[];
  timestamp = no_time;
}

-- A call whose answer is not used.
abbrev pub emit : Event → Port → Port
emit v p = record p { trace = v ∷ p.trace }

abbrev pub frame_at : List IoFrame → ℕ → IoFrame
frame_at frames i = get_or frames i no_frame

abbrev pub control_at : List IoFrame → ℕ → ℕ
control_at frames i = (frame_at frames i).desc.control

-- `(control & mask) != 0`
abbrev pub has : ℕ → ℕ → Bool
has control mask = not (bit_and control mask == 0)

-- `desc++; if (desc == num) desc = 0;`
unfoldable pub next_desc : ℕ → ℕ → ℕ
next_desc desc num = if u32 (desc + 1) == num then 0 else u32 (desc + 1)
