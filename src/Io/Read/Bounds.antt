-- ===== src/Io/Read/Bounds.antt =====
-- io.c: the bytes that fscc_user_read_frame gathers, and the buffer it makes for them.
use fscc_linux.Prelude.{
  ℕ, zero, suc, ◌+◌, ◌-◌, ◌/◌, ◌%◌, ◌^◌, ◌≤◌, ◌<◌, ◌≡◌, ◌≢◌, refl, ◌∙◌, arith, ◌⊎◌, inl, inr, List,
  ◌++◌, true, false, Bool-cases, length, length-append, ltb, ◌==◌, ◌&&◌, if◌then◌else◌, bit_and_le,
}
use fscc_linux.Kernel.{Env, Timestamp, truthy, length-fit, fit}
use fscc_linux.Offsets.{dma_max_length}
use fscc_linux.State.{IoFrame, Port, frame_at, control_at, next_desc}
use fscc_linux.Io.Ready.{next_size, user_next_read_size, stamp_rx}
use fscc_linux.Io.Write.{sub64}
use fscc_linux.Io.Read.Frame.{
  Reading, sizeof_timestamp, valid_data, buffer_requirement, timestamp_bytes, bytes8, move_bytes,
  planned_move_size, append_time, release_rx, next_frame, read_round, read_loop, read_frames,
}

-- A finished frame has the size that its last descriptor counts.
next_size-le :
    (frames : List IoFrame) (num cur bytes left : ℕ)
    → (next_size frames num cur bytes left).0 ≡ true
    → (next_size frames num cur bytes left).1 ≤ dma_max_length
unfolding next_size
next_size-le frames num cur bytes zero h = ground arith
next_size-le frames num cur bytes (suc left) h = ground (
  arith,
  bit_and_le (control_at frames cur) dma_max_length,
  next_size-le frames num (next_desc cur num)
      ((bytes + (frame_at frames cur).desc.data_count) % 2 ^ 64) left,
)

-- The bytes of a time stamp, if they are to be appended.
abbrev pub stamp_size : Port → ℕ
stamp_size p = if truthy p.append_timestamp then sizeof_timestamp else 0

-- The settings with which the size of a frame cannot wrap unnoticed.
abbrev pub IsSafe : Port → Type 0
IsSafe p = (p.append_status ≢ 0) ⊎ (p.append_timestamp ≡ 0)

requirement-le :
    (p : Port) (b room : ℕ)
    → IsSafe p
    → b ≤ dma_max_length
    → room < 2 ^ 64
    → buffer_requirement p b ≤ room
    → valid_data p b + stamp_size p ≤ room
unfolding buffer_requirement valid_data
requirement-le p b room s le small h = ground arith

false_ne_true : false ≢ true
false_ne_true q = ground arith

-- What is still to come has room.
record HasRoom (limit : ℕ) (r : Reading) : Type 0 where
  safe : IsSafe r.port
  room : length r.temp_data + r.total_valid_data + stamp_size r.port ≤ limit

length-bytes8 : (n k : ℕ) → length (bytes8 n k) ≡ k
unfolding bytes8
length-bytes8 n zero = refl
length-bytes8 n (suc k) = omega (arith, length-bytes8 (n / 256) k)

moved-le :
    (temp buffer : List ℕ) (real total stamp limit : ℕ)
    → real ≤ total
    → length temp + total + stamp ≤ limit
    → length (temp ++ fit real buffer) + (total - real) + stamp ≤ limit
moved-le temp buffer real total stamp limit le h =
    omega (arith, length-append temp (fit real buffer), length-fit real buffer)

bounded-le : (total planned : ℕ) → (if ltb total planned then total else planned) ≤ total
bounded-le total planned = ground arith

move_bytes-HasRoom : (limit : ℕ) (r : Reading) → HasRoom limit r → HasRoom limit (move_bytes r)
unfolding move_bytes
move_bytes-HasRoom limit r h =
    let frame = frame_at r.port.rx_descriptors r.port.user_rx_desc in
    let planned = planned_move_size frame r.filled_frame_size in
    let real = if ltb r.total_valid_data planned then r.total_valid_data else planned in
    record {
      safe = h.safe;
      room =
          moved-le r.temp_data frame.buffer real r.total_valid_data (stamp_size r.port) limit
            (bounded-le r.total_valid_data planned) h.room;
    }

length-timestamp_bytes : (t : Timestamp) → length (timestamp_bytes t) ≡ sizeof_timestamp
unfolding timestamp_bytes
length-timestamp_bytes t = omega (
  arith,
  length-append (bytes8 t.tv_sec 8) (bytes8 t.tv_nsec 8),
  length-bytes8 t.tv_sec 8,
  length-bytes8 t.tv_nsec 8,
)

-- With the time stamp, no more is gathered than there was room for.
append_time-le :
    (e : Env) (limit : ℕ) (r : Reading)
    → HasRoom limit r
    → length (append_time e r).temp_data ≤ limit
unfolding append_time
append_time-le e limit r h =
    elim (Bool-cases (r.bytes_in_descs == 0 && truthy r.port.append_timestamp)) [
      | inl due ↦
          (let p = stamp_rx e r.port.user_rx_desc r.port in
            let bytes = timestamp_bytes (frame_at p.rx_descriptors p.user_rx_desc).timestamp in
            let sixteen : stamp_size r.port ≡ 16 = ground arith in
            rw due (
              omega (
                arith,
                h.room,
                sixteen,
                length-append r.temp_data bytes,
                length-timestamp_bytes (frame_at p.rx_descriptors p.user_rx_desc).timestamp,
              )))
      | inr not_due ↦ rw not_due (omega (arith, h.room))
    ]

append_time-same :
    (e : Env) (r : Reading)
    → ((append_time e r).port.append_status ≡ r.port.append_status)
      × ((append_time e r).port.append_timestamp ≡ r.port.append_timestamp)
      × ((append_time e r).bytes_in_descs ≡ r.bytes_in_descs)
      × (r.bytes_in_descs ≢ 0 → append_time e r ≡ r)
unfolding append_time stamp_rx
append_time-same e r = ground arith

next_frame-HasRoom :
    (limit : ℕ) (r : Reading)
    → limit < 2 ^ 64
    → IsSafe r.port
    → length r.temp_data ≤ limit
    → (length (next_frame limit r).1.temp_data ≤ limit)
      × ((next_frame limit r).0 ≡ true → HasRoom limit (next_frame limit r).1)
unfolding next_frame user_next_read_size
next_frame-HasRoom limit r small s h = elim (Bool-cases (user_next_read_size r.port).0) [
  | inl ready ↦
      (let counted =
          next_size-le r.port.rx_descriptors r.port.memory.rx_num r.port.user_rx_desc 0
            r.port.memory.rx_num ready in
        let bytes = (user_next_read_size r.port).1 in
        rw ready
          (elim (Bool-cases
            (ltb (sub64 limit (length r.temp_data)) (buffer_requirement r.port bytes))) [
              | inl large ↦ rw large (h, λ q. absurd (false_ne_true q))
              | inr fits ↦ rw fits (
                h,
                λ q. record {
                  safe = s;
                  room = omega (
                    arith,
                    requirement-le r.port bytes (limit - length r.temp_data) s counted (omega arith)
                        (ground arith),
                  );
                },
              )
            ]))
  | inr none_ready ↦ rw none_ready (h, λ q. absurd (false_ne_true q))
]

-- The rest of a round, on what the time stamp leaves.
released : Reading → Reading
released r = record r { port = release_rx r.port }

released-IsSafe : (r : Reading) → IsSafe r.port → IsSafe (released r).port
unfolding released release_rx
released-IsSafe r s = s

released-same :
    (r : Reading)
    → ((released r).temp_data ≡ r.temp_data)
      × ((released r).total_valid_data ≡ r.total_valid_data)
      × (stamp_size (released r).port ≡ stamp_size r.port)
unfolding released release_rx
released-same r = (refl, refl, refl)

stamped : Env → Reading → Reading
stamped e r = released (append_time e (move_bytes r))

stamped_lem :
    (e : Env) (limit : ℕ) (r : Reading)
    → HasRoom limit r
    → IsSafe (stamped e r).port
      × (length (stamped e r).temp_data ≤ limit)
      × ((stamped e r).bytes_in_descs ≢ 0 → HasRoom limit (stamped e r))
unfolding stamped released release_rx
stamped_lem e limit r h =
    let moved = move_bytes-HasRoom limit r h in
    let (status, timestamp, bytes, same) = append_time-same e (move_bytes r) in
    (
      rw (status, timestamp) moved.safe,
      append_time-le e limit (move_bytes r) moved,
      λ more. record {
        safe = rw (status, timestamp) moved.safe;
        room = rw (same (λ z. more (bytes ∙ z))) moved.room;
      },
    )

read_round-HasRoom :
    (e : Env) (limit : ℕ) (r : Reading)
    → limit < 2 ^ 64
    → HasRoom limit r
    → (length (read_round e limit r).1.temp_data ≤ limit)
      × ((read_round e limit r).0 ≡ true → HasRoom limit (read_round e limit r).1)
unfolding read_round stamped released
read_round-HasRoom e limit r small h =
    let (safe, fits, more) = stamped_lem e limit r h in
    let next = next_frame-HasRoom limit (stamped e r) small safe fits in
    elim (Bool-cases ((stamped e r).bytes_in_descs == 0)) [
      | inr unfinished ↦ rw unfinished (fits, λ q. more (ground arith))
      | inl ended ↦ elim (Bool-cases (truthy (stamped e r).port.rx_multiple)) [
        | inl multiple ↦ rw (ended, multiple) next
        | inr single ↦ rw (ended, single) (fits, λ q. absurd (false_ne_true q))
      ]
    ]

-- The loop never gathers more than the buffer has room for, once what is to come has room.
read_loop-le :
    (e : Env) (limit left : ℕ) (r : Reading)
    → limit < 2 ^ 64
    → HasRoom limit r
    → length (read_loop e limit left r).temp_data ≤ limit
unfolding read_loop
read_loop-le e limit zero r small h = omega (arith, h.room)
read_loop-le e limit (suc left) r small h =
    let (fits, room) = read_round-HasRoom e limit r small h in
    elim (Bool-cases (read_round e limit r).0) [
      | inl more ↦ rw more (read_loop-le e limit left (read_round e limit r).1 small (room more))
      | inr ended ↦ rw ended fits
    ]

-- Behind the test of the buffer's size that fscc_user_read_frame makes first, what it gathers never
-- goes behind the end of its buffer, with as many frames as there are and with time stamps: if the
-- status is appended or time stamps are not, and the buffer has less than 2 ^ 64 bytes.
pub read_frames-le :
    (e : Env) (buf_length : ℕ) (p : Port)
    → IsSafe p
    → buf_length < 2 ^ 64
    → (user_next_read_size p).0 ≡ true
    → buffer_requirement p (user_next_read_size p).1 ≤ buf_length
    → length (read_frames e buf_length (user_next_read_size p).1 p).temp_data ≤ buf_length
unfolding read_frames user_next_read_size
read_frames-le e buf_length p s small ready h =
    let counted =
      next_size-le p.rx_descriptors p.memory.rx_num p.user_rx_desc 0 p.memory.rx_num ready in
    read_loop-le e buf_length p.memory.rx_num _ small (record {
      safe = s;
      room = omega (arith, requirement-le p (user_next_read_size p).1 buf_length s counted small h);
    })
