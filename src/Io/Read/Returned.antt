-- ===== src/Io/Read/Returned.antt =====
-- io.c: what fscc_io_read returns, and the bytes that fscc_user_read_stream gathers.
use fscc_linux.Prelude.{
  ℕ, zero, suc, ◌+◌, ◌^◌, ◌≤◌, ◌<◌, ◌≡◌, arith, inl, inr, List, [], true, false, Bool-cases, length,
  length-append, ltb, not, ◌||◌, if◌then◌else◌,
}
use fscc_linux.Kernel.{
  Env, enobufs, kfree, Trace, Ret, ok, err, length-fit, fit, kzalloc, spin_lock, spin_unlock,
  rx_lock,
}
use fscc_linux.State.{Port, emit, frame_at}
use fscc_linux.Port.Access.{is_streaming}
use fscc_linux.Io.Ready.{user_next_read_size}
use fscc_linux.Io.Write.{sext}
use fscc_linux.Io.Read.{io_read}
use fscc_linux.Io.Read.Frame.{buffer_requirement, read_frames, deliver, user_read_frame}
use fscc_linux.Io.Read.Stream.{Streaming, stream_size, stream_round, stream_loop, user_read_stream}
use fscc_linux.Io.Read.Bounds.{IsSafe, read_frames-le}

stream_size-le :
    (limit n count : ℕ) → n ≤ limit → limit < 2 ^ 31 → n + sext (stream_size limit n count) ≤ limit
unfolding stream_size
stream_size-le limit n count h small = ground arith

stream_round-le :
    (limit i : ℕ) (s : Streaming)
    → limit < 2 ^ 31
    → length s.temp_data ≤ limit
    → length (stream_round limit i s).1.temp_data ≤ limit
unfolding stream_round
stream_round-le limit i s small h =
    let frame = frame_at s.port.rx_descriptors s.port.user_rx_desc in
    let size = stream_size limit (length s.temp_data) frame.desc.data_count in
    ground (
      arith,
      length-append s.temp_data (fit (sext size) frame.buffer),
      length-fit (sext size) frame.buffer,
      stream_size-le limit (length s.temp_data) frame.desc.data_count h small,
    )

-- The loop of fscc_user_read_stream, once it has gathered no more than its buffer holds, never
-- gathers more than that, for a buffer of less than 2 ^ 31 bytes.
pub stream_loop-le :
    (limit i left : ℕ) (s : Streaming)
    → limit < 2 ^ 31
    → length s.temp_data ≤ limit
    → length (stream_loop limit i left s).temp_data ≤ limit
unfolding stream_loop
stream_loop-le limit i zero s small h = h
stream_loop-le limit i (suc left) s small h =
    let round = stream_round-le limit i s small h in
    let rest = stream_loop-le limit (i + 1) left (stream_round limit i s).1 small round in
    ground (arith, round, rest)

-- A count within a limit, or an error.
abbrev pub IsWithin : ℕ → Ret → Type 0
IsWithin limit (ok n) = n ≤ limit
IsWithin limit (err x) = Unit

deliver-IsWithin :
    (e : Env) (limit : ℕ) (temp_data : List ℕ) (p : Port)
    → ((t : Trace) (n : ℕ) → e.copy_unmoved t n ≤ n)
    → limit < 2 ^ 31
    → length temp_data ≤ limit
    → IsWithin limit (deliver e temp_data p).0
unfolding deliver
deliver-IsWithin e limit temp_data p copies small h =
    ground (arith, copies p.trace (length temp_data))

user_read_frame-IsWithin :
    (e : Env) (limit : ℕ) (p : Port)
    → IsSafe p
    → ((t : Trace) (n : ℕ) → e.copy_unmoved t n ≤ n)
    → limit < 2 ^ 31
    → IsWithin limit (user_read_frame e limit p).0
unfolding user_read_frame user_next_read_size
user_read_frame-IsWithin e limit p safe copies small =
    elim (Bool-cases (e.allocates p.trace limit)) [
      | inr refused ↦ rw refused (omega arith)
      | inl given ↦ rw given (accepted (emit (spin_lock rx_lock) (emit (kzalloc limit) p)) safe)
    ]
  where
    fitting :
        (p2 : Port)
        → IsSafe p2
        → (user_next_read_size p2).0 ≡ true
        → ltb limit (buffer_requirement p2 (user_next_read_size p2).1) ≡ false
        → length (read_frames e limit (user_next_read_size p2).1 p2).temp_data ≤ limit
    fitting p2 s ready fits = read_frames-le e limit p2 s (omega arith) ready (ground arith)

    accepted :
        (p2 : Port)
        → IsSafe p2
        → IsWithin limit
            (if not (user_next_read_size p2).0
                || ltb limit (buffer_requirement p2 (user_next_read_size p2).1)
              then (err enobufs, emit kfree (emit (spin_unlock rx_lock) p2))
              else (let r = read_frames e limit (user_next_read_size p2).1 p2 in
                  deliver e r.temp_data (emit (spin_unlock rx_lock) r.port))).0
    accepted p2 s = elim (Bool-cases (user_next_read_size p2).0) [
      | inr none_ready ↦ rw none_ready tt
      | inl ready ↦
          elim (Bool-cases (ltb limit (buffer_requirement p2 (user_next_read_size p2).1))) [
            | inl large ↦ rw (ready, large) tt
            | inr fits ↦
                rw (ready, fits)
                  (deliver-IsWithin e limit
                    (read_frames e limit (user_next_read_size p2).1 p2).temp_data
                    (emit (spin_unlock rx_lock)
                      (read_frames e limit (user_next_read_size p2).1 p2).port)
                    copies small (fitting p2 s ready fits))
          ]
    ]

user_read_stream-IsWithin :
    (e : Env) (limit : ℕ) (p : Port)
    → ((t : Trace) (n : ℕ) → e.copy_unmoved t n ≤ n)
    → limit < 2 ^ 31
    → IsWithin limit (user_read_stream e limit p).0
unfolding user_read_stream
user_read_stream-IsWithin e limit p copies small = elim (Bool-cases (e.allocates p.trace limit)) [
  | inr refused ↦ rw refused (omega arith)
  | inl given ↦
      (let p2 = emit (spin_lock rx_lock) (emit (kzalloc limit) p) in
        let s = stream_loop limit 0 p2.memory.rx_num (record { port = p2; temp_data = [] }) in
        rw given (
          deliver-IsWithin e limit s.temp_data (emit (spin_unlock rx_lock) s.port) copies small
            (stream_loop-le limit 0 p2.memory.rx_num _ small (omega arith))))
]

-- fscc_io_read, in either mode, returns an error or at most as many bytes as were asked for, if the
-- status is appended or time stamps are not. The copy to the user leaves no more bytes unmoved
-- than it is given, and less than 2 ^ 31 bytes are asked for.
pub io_read-IsWithin :
    (e : Env) (count : ℕ) (p : Port)
    → IsSafe p
    → ((t : Trace) (n : ℕ) → e.copy_unmoved t n ≤ n)
    → count < 2 ^ 31
    → IsWithin count (io_read e count p).0
unfolding io_read
io_read-IsWithin e count p safe copies small = elim (Bool-cases (is_streaming p)) [
  | inl streaming ↦ rw streaming (user_read_stream-IsWithin e count p copies small)
  | inr framed ↦ rw framed (user_read_frame-IsWithin e count p safe copies small)
]
