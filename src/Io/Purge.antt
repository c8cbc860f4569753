-- ===== src/Io/Purge.antt =====
-- io.c: purging, which gives every frame back and starts both ends at the first one.
pub mod Keeps
pub mod Fresh
pub mod Emptied
use fscc_linux.Prelude.{ℕ, zero, suc, List, [], ◌∷◌, if◌then◌else◌, ◌==◌}
use fscc_linux.Kernel.{
  Env, Ret, ok, spin_lock, spin_unlock, rx_lock, tx_lock, wake_up, output_queue, truthy,
}
use fscc_linux.Offsets.{desc_hi_bit, desc_cstop_bit, drdb_offset, dtdb_offset}
use fscc_linux.State.{IoFrame, Port, emit, no_time, frame_at}
use fscc_linux.Port.Access.{set_register, is_dma}
use fscc_linux.Io.Dma.{
  execute_stop_r, execute_rst_r, execute_stop_t, execute_rst_t, execute_rres, execute_tres,
  execute_go_r,
}

-- One frame of a purge.
abbrev pub reset_frame : ℕ → ℕ → IoFrame → IoFrame
reset_frame control data_count frame = record frame {
  desc = record (frame.desc) { control = control; data_count = data_count };
  timestamp = no_time;
}

-- The loop over the first `num` frames.
unfoldable pub reset_frames : ℕ → ℕ → ℕ → List IoFrame → List IoFrame
reset_frames control data_count zero frames = frames
reset_frames control data_count (suc left) [] = []
reset_frames control data_count (suc left) (frame ∷ frames) =
    reset_frame control data_count frame ∷ reset_frames control data_count left frames

-- The DMA engine is halted first.
unfoldable pub stop_rx : Env → Port → Port
stop_rx e p = if truthy (is_dma p) then execute_rst_r e (execute_stop_r e p) else p

unfoldable pub stop_tx : Env → Port → Port
stop_tx e p = if truthy (is_dma p) then execute_rst_t e (execute_stop_t e p) else p

-- The driver's own state.
unfoldable pub reset_rx : Port → Port
reset_rx p = record p {
  rx_descriptors = reset_frames desc_hi_bit p.memory.rx_size p.memory.rx_num p.rx_descriptors;
  user_rx_desc = 0;
  fifo_rx_desc = 0;
  rx_bytes_in_frame = 0;
  rx_frame_size = 0;
}

unfoldable pub reset_tx : Port → Port
reset_tx p = record p {
  tx_descriptors = reset_frames desc_cstop_bit 0 p.memory.tx_num p.tx_descriptors;
  user_tx_desc = 0;
  fifo_tx_desc = 0;
  tx_bytes_in_frame = 0;
  tx_frame_size = 0;
}

-- The DMA engine is pointed at the first descriptor.
unfoldable pub point_rx : Env → Port → Port
point_rx e p =
    if truthy (is_dma p)
    then (set_register e 2 drdb_offset (frame_at p.rx_descriptors 0).desc_physical_address p).1
    else p

unfoldable pub point_tx : Env → Port → Port
point_tx e p =
    if truthy (is_dma p)
    then (set_register e 2 dtdb_offset (frame_at p.tx_descriptors 0).desc_physical_address p).1
    else p

-- The DMA engine runs again.
unfoldable pub start_rx : Env → Port → Port
start_rx e p = if truthy (is_dma p) then execute_go_r e p else p

unfoldable pub purge_rx : Env → Port → Ret × Port
purge_rx e p =
    let p1 = point_rx e (reset_rx (execute_rres e (stop_rx e (emit (spin_lock rx_lock) p)))) in
    (ok 1, start_rx e (emit (spin_unlock rx_lock) p1))

unfoldable pub purge_tx : Env → Port → Ret × Port
purge_tx e p =
    let p1 = point_tx e (reset_tx (execute_tres e (stop_tx e (emit (spin_lock tx_lock) p)))) in
    (ok 1, emit (wake_up output_queue) (emit (spin_unlock tx_lock) p1))
