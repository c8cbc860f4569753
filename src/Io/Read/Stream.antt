-- ===== src/Io/Read/Stream.antt =====
-- io.c: fscc_user_read_stream, which copies what is there, whatever frames it belongs to.
use fscc_linux.Prelude.{
  ℕ, zero, suc, ◌+◌, ◌-◌, ◌%◌, ◌^◌, List, [], ◌++◌, Bool, true, false, not, ◌&&◌, if◌then◌else◌,
  ltb, ◌==◌, length, drop, set,
}
use fscc_linux.Kernel.{Env, Ret, ok, spin_lock, spin_unlock, rx_lock, kzalloc, truthy, fit, u32}
use fscc_linux.Offsets.{desc_fe_bit, desc_cstop_bit, desc_hi_bit}
use fscc_linux.State.{IoFrame, Port, emit, no_time, frame_at, has, next_desc}
use fscc_linux.Io.Write.{sub64, sext}
use fscc_linux.Io.Read.Frame.{deliver}

-- The variables of the loop; `temp_data` is what is written so far, and its length `out_length`.
pub record Streaming : Type 0 where
  pub port : Port
  pub temp_data : List ℕ

-- The bytes to take from a descriptor with `data_count` bytes, an `int`.
unfoldable pub stream_size : ℕ → ℕ → ℕ → ℕ
stream_size buf_length out_length data_count =
    if ltb data_count (sub64 buf_length out_length)
    then data_count
    else u32 (sub64 buf_length out_length)

-- The descriptor after a part of it, or all of it, has been taken.
unfoldable pub take_part : ℕ → ℕ → IoFrame → IoFrame
take_part i receive_length frame =
    let remaining = u32 (frame.desc.data_count + 2 ^ 32 - receive_length) in
    record frame {
      buffer = fit remaining (drop receive_length frame.buffer) ++ drop remaining frame.buffer;
      desc = record (frame.desc) { data_count = remaining };
    }

unfoldable pub take_all_of : ℕ → ℕ → IoFrame → IoFrame
take_all_of i rx_size frame = record frame {
  timestamp = no_time;
  desc = record (frame.desc) {
    data_count = rx_size;
    control = if truthy (i % 2) then desc_hi_bit else 0;
  };
}

-- Round `i` on a descriptor with data; the flag says whether the loop goes on.
unfoldable pub stream_round : ℕ → ℕ → Streaming → Bool × Streaming
stream_round buf_length i s =
    let p = s.port in
    let frame = frame_at p.rx_descriptors p.user_rx_desc in
    let receive_length = stream_size buf_length (length s.temp_data) frame.desc.data_count in
    let temp = s.temp_data ++ fit (sext receive_length) frame.buffer in
    if receive_length == frame.desc.data_count
    then (
      true,
      record {
        port = record p {
          rx_descriptors =
              set p.rx_descriptors p.user_rx_desc (take_all_of i p.memory.rx_size frame);
          user_rx_desc = next_desc p.user_rx_desc p.memory.rx_num;
        };
        temp_data = temp;
      },
    )
    else (
      false,
      record {
        port = record p {
          rx_descriptors = set p.rx_descriptors p.user_rx_desc (take_part i receive_length frame);
        };
        temp_data = temp;
      },
    )

-- The loop, from round `i` on.
unfoldable pub stream_loop : ℕ → ℕ → ℕ → Streaming → Streaming
stream_loop buf_length i zero s = s
stream_loop buf_length i (suc left) s =
    let control = (frame_at s.port.rx_descriptors s.port.user_rx_desc).desc.control in
    let (more, s1) = stream_round buf_length i s in
    let rest = stream_loop buf_length (i + 1) left s1 in
    if not (has control desc_fe_bit) && not (has control desc_cstop_bit)
    then s
    else if more
    then rest
    else s1

unfoldable pub user_read_stream : Env → ℕ → Port → Ret × Port
user_read_stream e buf_length p =
    let p1 = emit (kzalloc buf_length) p in
    if e.allocates p.trace buf_length
    then (let p2 = emit (spin_lock rx_lock) p1 in
        let s = stream_loop buf_length 0 p2.memory.rx_num (record { port = p2; temp_data = [] }) in
        deliver e s.temp_data (emit (spin_unlock rx_lock) s.port))
    else (ok 0, p1)
