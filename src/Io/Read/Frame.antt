-- ===== src/Io/Read/Frame.antt =====
-- io.c: fscc_user_read_frame, which copies one finished frame to the user, or as many as fit.
use fscc_linux.Prelude.{
  ℕ, zero, suc, ◌+◌, ◌-◌, ◌/◌, ◌%◌, ◌^◌, List, [], ◌∷◌, ◌++◌, Bool, true, false, not, ◌&&◌, ◌||◌,
  if◌then◌else◌, ltb, ◌==◌, bit_and, length, take, set,
}
use fscc_linux.Kernel.{
  Env, enobufs, Ret, ok, err, spin_lock, spin_unlock, rx_lock, kzalloc, kfree, copy_to, truthy, u32,
  fit, Timestamp,
}
use fscc_linux.Offsets.{desc_fe_bit, desc_cstop_bit, desc_hi_bit, dma_max_length}
use fscc_linux.State.{IoFrame, Port, emit, no_time, frame_at, has, next_desc}
use fscc_linux.Io.Ready.{user_next_read_size, stamp_rx}
use fscc_linux.Io.Write.{sub64}

-- sizeof(fscc_timestamp): two 64-bit fields
abbrev pub sizeof_timestamp : ℕ
sizeof_timestamp = 16

abbrev pub status_bytes : Port → ℕ
status_bytes p = if truthy p.append_status then 0 else 2

-- The bytes that the user is to have of a frame of `bytes_in_descs` bytes.
unfoldable pub valid_data : Port → ℕ → ℕ
valid_data p bytes_in_descs = sub64 bytes_in_descs (status_bytes p)

unfoldable pub buffer_requirement : Port → ℕ → ℕ
buffer_requirement p bytes_in_descs =
    (valid_data p bytes_in_descs + (if truthy p.append_timestamp then sizeof_timestamp else 0))
    % 2 ^ 64

-- `n` in memory as eight bytes.
unfoldable pub bytes8 : ℕ → ℕ → List ℕ
bytes8 n zero = []
bytes8 n (suc k) = (n % 256) ∷ bytes8 (n / 256) k

unfoldable pub timestamp_bytes : Timestamp → List ℕ
timestamp_bytes t = bytes8 t.tv_sec 8 ++ bytes8 t.tv_nsec 8

-- The variables of the loop; `temp_data` is what is written so far, and its length `out_length`.
pub record Reading : Type 0 where
  pub port : Port
  pub temp_data : List ℕ
  pub bytes_in_descs : ℕ
  pub total_valid_data : ℕ
  pub filled_frame_size : ℕ

-- The bytes that the descriptor holds of the frame.
unfoldable pub planned_move_size : IoFrame → ℕ → ℕ
planned_move_size frame filled_frame_size =
    if has frame.desc.control desc_fe_bit && has frame.desc.control desc_cstop_bit
    then sub64 (bit_and frame.desc.control dma_max_length) filled_frame_size
    else frame.desc.data_count

-- The round up to the time stamp: the bytes of the descriptor at hand.
unfoldable pub move_bytes : Reading → Reading
move_bytes r =
    let frame = frame_at r.port.rx_descriptors r.port.user_rx_desc in
    let planned = planned_move_size frame r.filled_frame_size in
    let real = if ltb r.total_valid_data planned then r.total_valid_data else planned in
    record r {
      temp_data = r.temp_data ++ fit real frame.buffer;
      bytes_in_descs = if ltb r.bytes_in_descs planned then 0 else r.bytes_in_descs - planned;
      total_valid_data = r.total_valid_data - real;
      filled_frame_size = (r.filled_frame_size + real) % 2 ^ 64;
    }

-- The time stamp behind the last bytes of the frame.
unfoldable pub append_time : Env → Reading → Reading
append_time e r =
    if r.bytes_in_descs == 0 && truthy r.port.append_timestamp
    then (let p = stamp_rx e r.port.user_rx_desc r.port in
        record r {
          port = p;
          temp_data =
              r.temp_data ++ timestamp_bytes (frame_at p.rx_descriptors p.user_rx_desc).timestamp;
        })
    else r

-- The descriptor goes back to the card.
unfoldable pub release_rx : Port → Port
release_rx p =
    let frame = frame_at p.rx_descriptors p.user_rx_desc in
    record p {
      rx_descriptors = set p.rx_descriptors p.user_rx_desc (record frame {
        timestamp = no_time;
        desc = record (frame.desc) { control = desc_hi_bit };
      });
      user_rx_desc = next_desc p.user_rx_desc p.memory.rx_num;
    }

-- The end of a frame with rx_multiple: is there another frame, and does it fit?
unfoldable pub next_frame : ℕ → Reading → Bool × Reading
next_frame buf_length r =
    let (frame_ready, bytes) = user_next_read_size r.port in
    if frame_ready
    then (if ltb (sub64 buf_length (length r.temp_data)) (buffer_requirement r.port bytes)
        then (
          false,
          record r { bytes_in_descs = bytes; total_valid_data = valid_data r.port bytes },
        )
        else (
          true,
          record r {
            bytes_in_descs = bytes;
            total_valid_data = valid_data r.port bytes;
            filled_frame_size = 0;
          },
        ))
    else (false, record r { bytes_in_descs = bytes })

-- One round of the loop; the flag says whether it goes on.
unfoldable pub read_round : Env → ℕ → Reading → Bool × Reading
read_round e buf_length r =
    let r1 = append_time e (move_bytes r) in
    let r2 = record r1 { port = release_rx r1.port } in
    if r2.bytes_in_descs == 0
    then (if truthy r2.port.rx_multiple then next_frame buf_length r2 else (false, r2))
    else (true, r2)

unfoldable pub read_loop : Env → ℕ → ℕ → Reading → Reading
read_loop e buf_length zero r = r
read_loop e buf_length (suc left) r =
    let (more, r1) = read_round e buf_length r in
    let rest = read_loop e buf_length left r1 in if more then rest else r1

-- The copy to the user, after the loop: what was moved, and the count that is returned.
unfoldable pub deliver : Env → List ℕ → Port → Ret × Port
deliver e temp_data p =
    let out_length = u32 (length temp_data) in
    if truthy out_length
    then (let unmoved_bytes = e.copy_unmoved p.trace out_length in
        (
          ok (u32 (out_length + 2 ^ 32 - unmoved_bytes)),
          emit kfree (emit (copy_to (take (out_length - unmoved_bytes) temp_data)) p),
        ))
    else (ok 0, emit kfree p)

-- The loop from its start, on a frame of `bytes_in_descs` bytes.
unfoldable pub read_frames : Env → ℕ → ℕ → Port → Reading
read_frames e buf_length bytes_in_descs p = read_loop e buf_length p.memory.rx_num (record {
  port = p;
  temp_data = [];
  bytes_in_descs = bytes_in_descs;
  total_valid_data = valid_data p bytes_in_descs;
  filled_frame_size = 0;
})

unfoldable pub user_read_frame : Env → ℕ → Port → Ret × Port
user_read_frame e buf_length p =
    let p1 = emit (kzalloc buf_length) p in
    if e.allocates p.trace buf_length
    then (let p2 = emit (spin_lock rx_lock) p1 in
        let (frame_ready, bytes_in_descs) = user_next_read_size p2 in
        if not frame_ready || ltb buf_length (buffer_requirement p2 bytes_in_descs)
        then (err enobufs, emit kfree (emit (spin_unlock rx_lock) p2))
        else (let r = read_frames e buf_length bytes_in_descs p2 in
            deliver e r.temp_data (emit (spin_unlock rx_lock) r.port)))
    else (ok 0, p1)
