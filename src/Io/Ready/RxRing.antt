-- ===== src/Io/Ready/RxRing.antt =====
-- What the receive ring of a port satisfies.
use fscc_linux.Prelude.{ℕ, ◌^◌, ◌≤◌, ◌<◌, ◌≡◌, false, length, bit_and}
use fscc_linux.Offsets.{desc_cstop_bit, dma_max_length}
use fscc_linux.State.{IoFrame, Port, frame_at, has}

-- A descriptor that the card may still fill has room, no count is more than the buffer, and every
-- buffer has the size of the pool's blocks.
pub record IsRxFrame (size : ℕ) (f : IoFrame) : Type 0 where
  pub whole : length f.buffer ≡ size
  pub counted : f.desc.data_count ≤ size
  pub room :
      has f.desc.control desc_cstop_bit ≡ false → bit_and f.desc.control dma_max_length < size

pub record IsRxRing (p : Port) : Type 0 where
  pub array : length p.rx_descriptors ≡ p.memory.rx_num
  pub few : p.memory.rx_num < 2 ^ 32
  pub some_size : 0 < p.memory.rx_size
  pub small : p.memory.rx_size < 2 ^ 29
  pub user_in : p.user_rx_desc < p.memory.rx_num
  pub fifo_in : p.fifo_rx_desc < p.memory.rx_num
  pub frames :
      (i : ℕ) → i < p.memory.rx_num → IsRxFrame p.memory.rx_size (frame_at p.rx_descriptors i)
