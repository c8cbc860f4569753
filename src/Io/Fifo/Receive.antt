-- ===== src/Io/Fifo/Receive.antt =====
-- io.c: fscc_fifo_read_data, which moves received data from the FIFO into the frames.
use fscc_linux.Prelude.{
  ℕ, zero, suc, ◌+◌, ◌-◌, ◌%◌, ◌^◌, List, ◌++◌, Bool, true, false, if◌then◌else◌, ltb, leb, ◌==◌,
  min, bit_and, bit_or, length, take, drop, set,
}
use fscc_linux.Kernel.{Env, Ret, ok, spin_lock, spin_unlock, rx_lock, truthy, u32}
use fscc_linux.Offsets.{desc_fe_bit, desc_cstop_bit, dma_max_length, fifo_offset, bc_fifo_l_offset}
use fscc_linux.State.{Port, emit, frame_at, control_at, has, next_desc}
use fscc_linux.Port.Access.{get_register, get_register_rep}
use fscc_linux.Port.Clock.{clear}
use fscc_linux.Io.Dma.{get_rfcnt, get_rxcnt}
use fscc_linux.Io.Ready.{stamp_rx}

-- `a < b` on `int`, given as 32-bit patterns.
abbrev pub lt_int : ℕ → ℕ → Bool
lt_int a b = ltb ((a + 2 ^ 31) % 2 ^ 32) ((b + 2 ^ 31) % 2 ^ 32)

-- `a - b` on `unsigned`
abbrev pub sub32 : ℕ → ℕ → ℕ
sub32 a b = u32 (a + 2 ^ 32 - b)

-- A frame of unknown size takes its size from the card, if a whole frame is in the FIFO.
unfoldable pub fetch_frame_size : Env → Port → Port
fetch_frame_size e p =
    if p.rx_frame_size == 0
    then (let (rfcnt, p1) = get_rfcnt e p in
        if truthy rfcnt
        then (let (size, p2) = get_register e 0 bc_fifo_l_offset p1 in
            record p2 { rx_frame_size = size })
        else p1)
    else p

-- The bytes to take now, before the room of the descriptor bounds them.
unfoldable pub bytes_waiting : Env → Port → ℕ × Port
bytes_waiting e p =
    if truthy p.rx_frame_size
    then (
      if lt_int p.rx_bytes_in_frame p.rx_frame_size
          then sub32 p.rx_frame_size p.rx_bytes_in_frame
          else 0,
      p,
    )
    else (let (rxcnt, p1) = get_rxcnt e p in (rxcnt - rxcnt % 4, p1))

-- `bytes` written at `offset` of a buffer.
unfoldable pub overlay : List ℕ → ℕ → List ℕ → List ℕ
overlay buffer offset bytes = take offset buffer ++ bytes ++ drop (offset + length bytes) buffer

-- The data itself goes behind what the descriptor holds.
unfoldable pub take_bytes : Env → ℕ → ℕ → ℕ → Port → Port
take_bytes e i offset receive_length p =
    if truthy receive_length
    then (let (bytes, p1) = get_register_rep e 0 fifo_offset receive_length p in
        let frame = frame_at p1.rx_descriptors i in
        record p1 {
          rx_descriptors =
              set p1.rx_descriptors i (record frame { buffer = overlay frame.buffer offset bytes });
        })
    else p

-- A full descriptor is finished.
unfoldable pub finish_full : ℕ → ℕ → ℕ
finish_full rx_size control =
    if leb rx_size (bit_and control dma_max_length)
    then bit_or (clear control dma_max_length) desc_cstop_bit
    else control

-- A whole frame finishes its last descriptor, and the next frame begins.
unfoldable pub finish_frame : ℕ → Port → ℕ × Port
finish_frame control p =
    if lt_int 0 p.rx_frame_size
    then (if lt_int p.rx_bytes_in_frame p.rx_frame_size then (control, p) else (
      bit_or (bit_or p.rx_frame_size desc_cstop_bit) desc_fe_bit,
      record p { rx_frame_size = 0; rx_bytes_in_frame = 0 },
    ))
    else (control, p)

-- The descriptor as the round leaves it.
unfoldable pub store_control : Env → ℕ → ℕ → Port → Port
store_control e i control p =
    let p1 = if has control desc_cstop_bit then stamp_rx e i p else p in
    let frame = frame_at p1.rx_descriptors i in
    let count = if has control desc_cstop_bit then p1.memory.rx_size else frame.desc.data_count in
    record p1 {
      rx_descriptors =
          set p1.rx_descriptors i
            (record frame { desc = record (frame.desc) { control = control; data_count = count } });
    }

-- One round of the loop; the flag says whether it goes on.
unfoldable pub receive_round : Env → Port → Bool × Port
receive_round e p =
    let i = p.fifo_rx_desc in
    let control = control_at p.rx_descriptors i in
    if has control desc_cstop_bit
    then (false, p)
    else (let offset = bit_and control dma_max_length in
        let (waiting, p1) = bytes_waiting e (fetch_frame_size e p) in
        let receive_length = min waiting (sub32 p1.memory.rx_size offset) in
        let p2 = take_bytes e i offset receive_length p1 in
        let p3 = record p2 { rx_bytes_in_frame = u32 (p2.rx_bytes_in_frame + receive_length) } in
        let (new_control, p4) =
          finish_frame (finish_full p3.memory.rx_size (u32 (control + receive_length))) p3 in
        let p5 = store_control e i new_control p4 in
        if has new_control desc_cstop_bit
        then (true, record p5 { fifo_rx_desc = next_desc i p5.memory.rx_num })
        else (false, p5))

unfoldable pub receive_loop : Env → ℕ → Port → Port
receive_loop e zero p = p
receive_loop e (suc left) p =
    let (more, p1) = receive_round e p in
    let rest = receive_loop e left p1 in if more then rest else p1

unfoldable pub fifo_read_data : Env → Port → Ret × Port
fifo_read_data e p =
    (ok 1, emit (spin_unlock rx_lock) (receive_loop e p.memory.rx_num (emit (spin_lock rx_lock) p)))
