-- ===== src/Io/Ready.antt =====
-- io.c: what a user may read or write now, and the time stamps of finished frames.
pub mod Space
pub mod RxRing
use fscc_linux.Prelude.{
  ℕ, zero, suc, ◌+◌, ◌%◌, ◌^◌, List, Bool, true, false, not, ◌&&◌, if◌then◌else◌, ◌==◌, bit_and,
  set,
}
use fscc_linux.Kernel.{Env, spin_lock, spin_unlock, rx_lock, get_time, Timestamp}
use fscc_linux.Offsets.{desc_fe_bit, desc_cstop_bit, dma_max_length}
use fscc_linux.State.{IoFrame, Port, emit, frame_at, control_at, has, next_desc}
use fscc_linux.Port.Access.{is_streaming}

-- The loop of fscc_user_next_read_size: whether a whole frame is there, and the bytes.
unfoldable pub next_size : List IoFrame → ℕ → ℕ → ℕ → ℕ → Bool × ℕ
next_size frames num cur_desc bytes zero = (false, bytes)
next_size frames num cur_desc bytes (suc left) =
    let control = control_at frames cur_desc in
    let rest =
      next_size frames num (next_desc cur_desc num)
        ((bytes + (frame_at frames cur_desc).desc.data_count) % 2 ^ 64) left in
    if not (has control desc_fe_bit) && not (has control desc_cstop_bit)
    then (false, bytes)
    else if has control desc_fe_bit && has control desc_cstop_bit
    then (true, bit_and control dma_max_length)
    else rest

unfoldable pub user_next_read_size : Port → Bool × ℕ
user_next_read_size p = next_size p.rx_descriptors p.memory.rx_num p.user_rx_desc 0 p.memory.rx_num

unfoldable pub user_read_ready : Port → Bool
user_read_ready p =
    let (frame_ready, bytes_ready) = user_next_read_size p in
    if is_streaming p then not (bytes_ready == 0) else frame_ready

unfoldable pub timestamp_is_empty : Timestamp → Bool
timestamp_is_empty t = t.tv_sec == 0 && t.tv_nsec == 0

-- `if (timestamp_is_empty (&frame->timestamp)) set_timestamp (&frame->timestamp);`
unfoldable pub stamp_rx : Env → ℕ → Port → Port
stamp_rx e i p =
    let frame = frame_at p.rx_descriptors i in
    if timestamp_is_empty frame.timestamp
    then emit get_time (record p {
      rx_descriptors =
          set p.rx_descriptors i (record frame { timestamp = e.ktime_get_ts64 p.trace });
    })
    else p

unfoldable pub stamp_from : Env → ℕ → ℕ → Port → Port
stamp_from e cur_desc zero p = p
stamp_from e cur_desc (suc left) p =
    let control = control_at p.rx_descriptors cur_desc in
    let rest = stamp_from e (next_desc cur_desc p.memory.rx_num) left (stamp_rx e cur_desc p) in
    if not (has control desc_fe_bit) && not (has control desc_cstop_bit) then p else rest

unfoldable pub apply_timestamps : Env → Port → Port
apply_timestamps e p =
    emit (spin_unlock rx_lock)
      (stamp_from e p.user_rx_desc p.memory.rx_num (emit (spin_lock rx_lock) p))

-- The loop of fscc_user_get_tx_space.
unfoldable pub tx_space : List IoFrame → ℕ → ℕ → ℕ → ℕ → ℕ → ℕ
tx_space frames num tx_size cur_desc space zero = space
tx_space frames num tx_size cur_desc space (suc left) =
    let rest =
      tx_space frames num tx_size (next_desc cur_desc num) ((space + tx_size) % 2 ^ 64) left in
    if has (control_at frames cur_desc) desc_cstop_bit then rest else space

unfoldable pub user_get_tx_space : Port → ℕ
user_get_tx_space p =
    tx_space p.tx_descriptors p.memory.tx_num p.memory.tx_size p.user_tx_desc 0 p.memory.tx_num
