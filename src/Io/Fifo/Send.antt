-- ===== src/Io/Fifo/Send.antt =====
-- io.c: fscc_fifo_write_data, which moves finished frames into the transmit FIFO.
use fscc_linux.Prelude.{
  ℕ, zero, suc, ◌+◌, ◌-◌, ◌%◌, ◌^◌, Bool, false, ◌&&◌, ◌||◌, if◌then◌else◌, ltb, bit_and, set,
}
use fscc_linux.Kernel.{Env, spin_lock, spin_unlock, tx_lock, truthy, u32}
use fscc_linux.Offsets.{desc_fe_bit, desc_cstop_bit, dma_max_length, fifo_offset, bc_fifo_l_offset}
use fscc_linux.State.{IoFrame, Port, emit, frame_at, has, next_desc}
use fscc_linux.Port.Access.{set_register, set_register_rep}
use fscc_linux.Io.Dma.{get_tfcnt, get_txcnt, execute_transmit}

-- TX_FIFO_SIZE
abbrev pub tx_fifo_size : ℕ
tx_fifo_size = 4096

-- The space that the FIFO has for whole words, from the count of its bytes.
unfoldable pub fifo_room : ℕ → ℕ
fifo_room txcnt =
    let fifo_space = u32 (2 ^ 32 + tx_fifo_size - txcnt - 1) in fifo_space - fifo_space % 4

-- What a descriptor's bytes are taken to need in the FIFO.
unfoldable pub size_in_fifo : ℕ → ℕ
size_in_fifo write_length = u32 (write_length + (4 - write_length % 4))

-- The variables of the loop.
pub record Sending : Type 0 where
  pub port : Port
  pub fifo_space : ℕ
  pub frame_size : ℕ
  pub data_written : ℕ

-- Does the loop break at `frame`?
unfoldable pub stops : ℕ → IoFrame → Sending → Bool
stops tfcnt frame s =
    has frame.desc.control desc_cstop_bit
    || ltb s.fifo_space (size_in_fifo frame.desc.data_count)
    || has frame.desc.control desc_fe_bit && (ltb 255 tfcnt || truthy s.frame_size)

-- The rest of a round: the data goes out and the descriptor is reset.
unfoldable pub send_frame : IoFrame → Sending → Sending
send_frame frame s =
    let p = s.port in
    let p1 = set_register_rep 0 fifo_offset frame.buffer frame.desc.data_count p in
    record {
      port = record p1 {
        tx_descriptors = set p1.tx_descriptors p.fifo_tx_desc (record frame {
          desc = record (frame.desc) { data_count = 0; control = desc_cstop_bit };
        });
        fifo_tx_desc = next_desc p.fifo_tx_desc p.memory.tx_num;
      };
      fifo_space = s.fifo_space - size_in_fifo frame.desc.data_count;
      frame_size =
          if has frame.desc.control desc_fe_bit
          then bit_and frame.desc.control dma_max_length
          else s.frame_size;
      data_written = 1;
    }

unfoldable pub send_loop : ℕ → ℕ → Sending → Sending
send_loop tfcnt zero s = s
send_loop tfcnt (suc left) s =
    let frame = frame_at s.port.tx_descriptors s.port.fifo_tx_desc in
    let rest = send_loop tfcnt left (send_frame frame s) in if stops tfcnt frame s then s else rest

unfoldable pub fifo_write_data : Env → Port → ℕ × Port
fifo_write_data e p =
    let (tfcnt, p1) = get_tfcnt e p in
    if ltb 254 tfcnt
    then (0, p1)
    else (let (txcnt, p2) = get_txcnt e p1 in
        let room = fifo_room txcnt in
        if ltb tx_fifo_size room
        then (0, p2)
        else (let s = send_loop tfcnt p2.memory.tx_num (record {
          port = emit (spin_lock tx_lock) p2;
          fifo_space = room;
          frame_size = 0;
          data_written = 0;
        }) in
            let p3 =
              if truthy s.frame_size
              then (set_register e 0 bc_fifo_l_offset s.frame_size s.port).1
              else s.port in
            (s.data_written, emit (spin_unlock tx_lock) p3)))

unfoldable pub transmit_frame : Env → Port → ℕ × Port
transmit_frame e p =
    let (result, p1) = fifo_write_data e p in
    (result, if truthy result then execute_transmit e false p1 else p1)
