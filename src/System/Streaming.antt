-- ===== src/System/Streaming.antt =====
-- io.c: fscc_user_read_stream and fscc_io_read, and the time stamps, and the two rings.
use fscc_linux.Prelude.{
  ℕ, zero, suc, ◌+◌, ◌-◌, ◌%◌, ◌^◌, ◌≤◌, ◌<◌, refl, arith, List, not, ◌&&◌, Bool-cases, inl, inr,
  length, length-append, length-drop, drop, set, ◌==◌,
}
use fscc_linux.Kernel.{
  Env, Event, fit, length-fit, truthy, u32, spin_lock, spin_unlock, rx_lock, kzalloc,
}
use fscc_linux.Offsets.{desc_fe_bit, desc_cstop_bit}
use fscc_linux.State.{IoFrame, Port, emit, frame_at, control_at, has, next_desc}
use fscc_linux.Ring.{next_desc-lt}
use fscc_linux.Port.Access.{is_streaming}
use fscc_linux.Io.Ready.{stamp_rx, stamp_from, apply_timestamps}
use fscc_linux.Io.Ready.RxRing.{IsRxFrame, IsRxRing}
use fscc_linux.Io.Read.{io_read}
use fscc_linux.Io.Read.Frame.{deliver, user_read_frame}
use fscc_linux.Io.Read.Stream.{
  Streaming, stream_size, take_part, take_all_of, stream_round, stream_loop, user_read_stream,
}
use fscc_linux.System.Same.{
  SameTx, SameTx-trans, IsRxRing-same, SameTx-refl, emit-SameTx, emit-SameRx,
}
use fscc_linux.System.Frames.{IsUpdated-IsRxRing, stamp_rx-IsRxRing}
use fscc_linux.System.Reading.{
  deliver-SameRx, deliver-SameTx, frame_port, read_loop-IsRxRing, read_loop-SameTx, stamp_rx-SameTx,
  turn-IsRxRing,
}

take_all_of-IsRxFrame :
    (i size : ℕ) (f : IoFrame) → 0 < size → IsRxFrame size f → IsRxFrame size (take_all_of i size f)
unfolding take_all_of
take_all_of-IsRxFrame i size f pos h = record {
  whole = h.whole;
  counted = omega arith;
  room = λ z. elim (Bool-cases (truthy (i % 2))) [ inl odd ↦ rw odd pos | inr even ↦ rw even pos ];
}

take_part-IsRxFrame :
    (i size n : ℕ) (f : IoFrame)
    → size < 2 ^ 29
    → n ≤ f.desc.data_count
    → IsRxFrame size f
    → IsRxFrame size (take_part i n f)
unfolding take_part
take_part-IsRxFrame i size n f small le h =
    let remaining = u32 (f.desc.data_count + 2 ^ 32 - n) in
    let left : remaining ≤ size = omega (arith, h.counted) in
    record {
      whole = omega (
        arith,
        length-append (fit remaining (drop n f.buffer)) (drop remaining f.buffer),
        length-fit remaining (drop n f.buffer),
        length-drop remaining f.buffer,
        h.whole,
        left,
      );
      counted = left;
      room = h.room;
    }

stream_size-le : (limit out count : ℕ) → stream_size limit out count ≤ count
unfolding stream_size
stream_size-le limit out count = ground arith

stream_round-IsRxRing :
    (n i : ℕ) (s : Streaming) → IsRxRing s.port → IsRxRing (stream_round n i s).1.port
unfolding stream_round
stream_round-IsRxRing n i s v =
    let p = s.port in
    let f = frame_at p.rx_descriptors p.user_rx_desc in
    let size = stream_size n (length s.temp_data) f.desc.data_count in
    let h = v.frames p.user_rx_desc v.user_in in
    elim (Bool-cases (size == f.desc.data_count)) [
      | inl all ↦ rw all (
          turn-IsRxRing p.user_rx_desc
            (record p {
              rx_descriptors =
                  set p.rx_descriptors p.user_rx_desc (take_all_of i p.memory.rx_size f);
            })
            v.user_in
            (IsUpdated-IsRxRing {p = p}
              (record { memory_same = refl; user_same = refl; fifo_same = refl; updated = refl })
              (take_all_of-IsRxFrame i p.memory.rx_size f v.some_size h) v))
      | inr part ↦ rw part (
          IsUpdated-IsRxRing {p = p}
            (record { memory_same = refl; user_same = refl; fifo_same = refl; updated = refl })
            (take_part-IsRxFrame i p.memory.rx_size size f v.small
              (stream_size-le n (length s.temp_data) f.desc.data_count) h)
            v)
    ]

stream_loop-IsRxRing :
    (n i left : ℕ) (s : Streaming) → IsRxRing s.port → IsRxRing (stream_loop n i left s).port
unfolding stream_loop
stream_loop-IsRxRing n i zero s v = v
stream_loop-IsRxRing n i (suc left) s v =
    let v1 = stream_round-IsRxRing n i s v in
    let rest = stream_loop-IsRxRing n (i + 1) left (stream_round n i s).1 v1 in
    let control = control_at s.port.rx_descriptors s.port.user_rx_desc in
    elim (Bool-cases (not (has control desc_fe_bit) && not (has control desc_cstop_bit))) [
      | inl empty ↦ rw empty v
      | inr some_left ↦ rw some_left (elim (Bool-cases (stream_round n i s).0) [
        | inl more ↦ rw more rest
        | inr ended ↦ rw ended v1
      ])
    ]

stream_round-SameTx : (n i : ℕ) (s : Streaming) → SameTx s.port (stream_round n i s).1.port
unfolding stream_round
stream_round-SameTx n i s = ground arith

stream_loop-SameTx : (n i left : ℕ) (s : Streaming) → SameTx s.port (stream_loop n i left s).port
unfolding stream_loop
stream_loop-SameTx n i zero s = SameTx-refl s.port
stream_loop-SameTx n i (suc left) s =
    ground
      (arith, stream_round-SameTx n i s, stream_loop-SameTx n (i + 1) left (stream_round n i s).1)

-- The same for the stream.
stream_port :
    (e : Env) (n : ℕ) (p : Port) (P : Port → Type 0)
    → P p
    → ((v : Event) (q : Port) → P q → P (emit v q))
    → ((s : Streaming) → P s.port → P (stream_loop n 0 s.port.memory.rx_num s).port)
    → ((bytes : List ℕ) (q : Port) → P q → P (deliver e bytes q).1)
    → P (user_read_stream e n p).1
unfolding user_read_stream
stream_port e n p P h called looped copied = elim (Bool-cases (e.allocates p.trace n)) [
  | inr refused ↦ rw refused h1
  | inl given ↦ rw given (
      copied _ _ (
        called (spin_unlock rx_lock) _
          (looped _ (called (spin_lock rx_lock) (emit (kzalloc n) p) h1))))
]
  where
    h1 : P (emit (kzalloc n) p)
    h1 = called (kzalloc n) p h

io_read_port :
    (e : Env) (n : ℕ) (p : Port) (P : Port → Type 0)
    → P (user_read_frame e n p).1
    → P (user_read_stream e n p).1
    → P (io_read e n p).1
unfolding io_read
io_read_port e n p P h k = elim (Bool-cases (is_streaming p)) [
  | inl streaming ↦ rw streaming k
  | inr framed ↦ rw framed h
]

-- Reading keeps the receive ring well formed, and does not concern the transmit ring.
pub io_read-IsRxRing : (e : Env) (n : ℕ) (p : Port) → IsRxRing p → IsRxRing (io_read e n p).1
io_read-IsRxRing e n p v =
    io_read_port e n p IsRxRing
      (frame_port e n p IsRxRing v called (λ r. read_loop-IsRxRing e n r.port.memory.rx_num r)
        copied)
      (stream_port e n p IsRxRing v called (λ s. stream_loop-IsRxRing n 0 s.port.memory.rx_num s)
        copied)
  where
    called : (t : Event) (q : Port) → IsRxRing q → IsRxRing (emit t q)
    called t q = IsRxRing-same (emit-SameRx t q)

    copied : (bytes : List ℕ) (q : Port) → IsRxRing q → IsRxRing (deliver e bytes q).1
    copied bytes q = IsRxRing-same (deliver-SameRx e bytes q)

pub io_read-SameTx : (e : Env) (n : ℕ) (p : Port) → SameTx p (io_read e n p).1
io_read-SameTx e n p =
    io_read_port e n p (SameTx p)
      (frame_port e n p (SameTx p) (SameTx-refl p) called
        (λ r h. SameTx-trans h (read_loop-SameTx e n r.port.memory.rx_num r)) copied)
      (stream_port e n p (SameTx p) (SameTx-refl p) called
        (λ s h. SameTx-trans h (stream_loop-SameTx n 0 s.port.memory.rx_num s)) copied)
  where
    called : (t : Event) (q : Port) → SameTx p q → SameTx p (emit t q)
    called t q h = SameTx-trans h (emit-SameTx t q)

    copied : (bytes : List ℕ) (q : Port) → SameTx p q → SameTx p (deliver e bytes q).1
    copied bytes q h = SameTx-trans h (deliver-SameTx e bytes q)

stamp_from-IsRxRing :
    (e : Env) (i left : ℕ) (p : Port)
    → i < p.memory.rx_num
    → IsRxRing p
    → IsRxRing (stamp_from e i left p)
unfolding stamp_from
stamp_from-IsRxRing e i zero p lt v = v
stamp_from-IsRxRing e i (suc left) p lt v =
    let v1 = stamp_rx-IsRxRing e i p lt v in
    let same = (stamp_rx-SameTx e i p).memory_same in
    let lt1 : next_desc i p.memory.rx_num < (stamp_rx e i p).memory.rx_num =
      rw same (next_desc-lt i p.memory.rx_num lt) in
    let rest = stamp_from-IsRxRing e (next_desc i p.memory.rx_num) left (stamp_rx e i p) lt1 v1 in
    let control = control_at p.rx_descriptors i in
    elim (Bool-cases (not (has control desc_fe_bit) && not (has control desc_cstop_bit))) [
      | inl empty ↦ rw empty v
      | inr some_left ↦ rw some_left rest
    ]

stamp_from-SameTx : (e : Env) (i left : ℕ) (p : Port) → SameTx p (stamp_from e i left p)
unfolding stamp_from
stamp_from-SameTx e i zero p = SameTx-refl p
stamp_from-SameTx e i (suc left) p = ground (
  arith,
  stamp_rx-SameTx e i p,
  stamp_from-SameTx e (next_desc i p.memory.rx_num) left (stamp_rx e i p),
)

pub apply_timestamps-IsRxRing : (e : Env) (p : Port) → IsRxRing p → IsRxRing (apply_timestamps e p)
unfolding apply_timestamps
apply_timestamps-IsRxRing e p v = IsRxRing-same (emit-SameRx (spin_unlock rx_lock) _) (
    stamp_from-IsRxRing e p.user_rx_desc p.memory.rx_num (emit (spin_lock rx_lock) p) v.user_in
      (IsRxRing-same (emit-SameRx (spin_lock rx_lock) p) v))

pub apply_timestamps-SameTx : (e : Env) (p : Port) → SameTx p (apply_timestamps e p)
unfolding apply_timestamps
apply_timestamps-SameTx e p = SameTx-trans (emit-SameTx (spin_lock rx_lock) p) (
    SameTx-trans (stamp_from-SameTx e p.user_rx_desc p.memory.rx_num (emit (spin_lock rx_lock) p))
      (emit-SameTx (spin_unlock rx_lock) _))
