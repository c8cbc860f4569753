-- ===== src/Io/Write.antt =====
-- io.c: fscc_user_write_frame, which splits a user's frame over the transmit descriptors.
pub mod Split
pub mod Frame
use fscc_linux.Prelude.{
  ℕ, zero, suc, ◌+◌, ◌-◌, ◌%◌, ◌^◌, List, ◌++◌, Bool, true, false, not, ◌&&◌, if◌then◌else◌, ltb,
  ◌==◌, bit_or, length, take, drop, set,
}
use fscc_linux.Kernel.{
  Env, Errno, enobufs, Ret, ok, err, spin_lock, spin_unlock, tx_lock, kzalloc, kfree, copy_from,
  truthy, u32, fit,
}
use fscc_linux.Offsets.{desc_fe_bit, desc_cstop_bit, desc_hi_bit, dtdb_offset}
use fscc_linux.State.{IoFrame, Port, emit, frame_at, has, next_desc}
use fscc_linux.Port.Access.{set_register, is_dma}
use fscc_linux.Io.Dma.{is_tx_running, execute_transmit}

-- An `int` as a `size_t`.
abbrev pub sext : ℕ → ℕ
sext n = if ltb n (2 ^ 31) then n else n + 2 ^ 64 - 2 ^ 32

-- `a - b` on `size_t`
abbrev pub sub64 : ℕ → ℕ → ℕ
sub64 a b = (a + 2 ^ 64 - b) % 2 ^ 64

-- The variables of the loop.
pub record Writing : Type 0 where
  pub port : Port
  pub out_length : ℕ
  pub start_desc : ℕ
  pub status : Ret

-- What the round puts into the descriptor at hand.
unfoldable pub fill_frame : List ℕ → ℕ → ℕ → ℕ → ℕ → IoFrame → IoFrame
fill_frame bytes data_length i out_length transmit_length frame = record frame {
  buffer = fit transmit_length (drop out_length bytes) ++ drop transmit_length frame.buffer;
  desc = record (frame.desc) {
    data_count = u32 transmit_length;
    control =
        if i == 0
        then u32 (bit_or (bit_or desc_hi_bit desc_fe_bit) data_length)
        else u32 (bit_or desc_hi_bit transmit_length);
  };
}

-- The bytes that go into one descriptor.
unfoldable pub transmit_size : ℕ → ℕ → ℕ → ℕ
transmit_size tx_size data_length out_length =
    if ltb tx_size (sub64 data_length (sext out_length))
    then tx_size
    else sub64 data_length (sext out_length)

-- One round on a free descriptor.
unfoldable pub write_round : List ℕ → ℕ → ℕ → Writing → Writing
write_round bytes data_length i w =
    let p = w.port in
    let frame = frame_at p.tx_descriptors p.user_tx_desc in
    let transmit_length = transmit_size p.memory.tx_size data_length w.out_length in
    record w {
      start_desc = if w.start_desc == 0 then frame.desc_physical_address else w.start_desc;
      out_length = u32 (w.out_length + transmit_length);
      port = record p {
        tx_descriptors =
            set p.tx_descriptors p.user_tx_desc
              (fill_frame bytes data_length i w.out_length transmit_length frame);
        user_tx_desc = next_desc p.user_tx_desc p.memory.tx_num;
      };
    }

-- The loop, from round `i` on.
unfoldable pub write_loop : List ℕ → ℕ → ℕ → ℕ → Writing → Writing
write_loop bytes data_length i zero w = w
write_loop bytes data_length i (suc left) w =
    let frame = frame_at w.port.tx_descriptors w.port.user_tx_desc in
    let w1 = write_round bytes data_length i w in
    let rest = write_loop bytes data_length (i + 1) left w1 in
    if has frame.desc.control desc_cstop_bit
    then (if sext w1.out_length == data_length then w1 else rest)
    else record w { status = err enobufs }

-- The end of fscc_user_write_frame: an idle DMA engine is started at the frame.
unfoldable pub start_dma : Env → ℕ → Port → Port
start_dma e start_desc p =
    if truthy (is_dma p)
    then (let (running, p1) = is_tx_running e p in
        if running
        then p1
        else execute_transmit e true (set_register e 2 dtdb_offset start_desc p1).1)
    else p

-- `buf` is the user's buffer. Bytes that cannot be copied read as zeros.
unfoldable pub user_write_frame : Env → List ℕ → ℕ → Port → Ret × Port
user_write_frame e buf data_length p =
    let p1 = emit (kzalloc data_length) p in
    if e.allocates p.trace data_length
    then (let bytes =
          fit data_length (take (data_length - e.copy_unmoved p1.trace data_length) buf) in
        let p2 = emit (spin_lock tx_lock) (emit (copy_from data_length) p1) in
        let w =
          write_loop bytes data_length 0 p2.memory.tx_num
            (record { port = p2; out_length = 0; start_desc = 0; status = ok 0 }) in
        (w.status, emit kfree (start_dma e w.start_desc (emit (spin_unlock tx_lock) w.port))))
    else (ok 0, p1)
