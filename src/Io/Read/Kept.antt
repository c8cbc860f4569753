-- ===== src/Io/Read/Kept.antt =====
-- io.c: the read semaphore across fscc_io_read.
use fscc_linux.Prelude.{ℕ, zero, suc, ◌+◌, ◌≡◌, refl, arith, List, []}
use fscc_linux.Kernel.{Env, spin_lock, spin_unlock, rx_lock, kzalloc}
use fscc_linux.State.{Port, emit}
use fscc_linux.Io.Ready.{stamp_rx, user_next_read_size}
use fscc_linux.Io.Read.{io_read}
use fscc_linux.Io.Read.Frame.{
  Reading, move_bytes, append_time, release_rx, next_frame, read_round, read_loop, read_frames,
  deliver, user_read_frame,
}
use fscc_linux.Io.Read.Stream.{Streaming, stream_round, stream_loop, user_read_stream}

next_frame-kept :
    (n : ℕ) (r : Reading) → (next_frame n r).1.port.read_semaphore ≡ r.port.read_semaphore
unfolding next_frame
next_frame-kept n r = ground arith

append_time-kept :
    (e : Env) (r : Reading) → (append_time e r).port.read_semaphore ≡ r.port.read_semaphore
unfolding append_time stamp_rx
append_time-kept e r = ground arith

read_round-kept :
    (e : Env) (n : ℕ) (r : Reading)
    → (read_round e n r).1.port.read_semaphore ≡ r.port.read_semaphore
unfolding read_round release_rx move_bytes
read_round-kept e n r =
    let r1 = append_time e (move_bytes r) in
    ground (
      arith,
      append_time-kept e (move_bytes r),
      next_frame-kept n (record r1 { port = release_rx r1.port }),
    )

read_loop-kept :
    (e : Env) (n left : ℕ) (r : Reading)
    → (read_loop e n left r).port.read_semaphore ≡ r.port.read_semaphore
unfolding read_loop
read_loop-kept e n zero r = refl
read_loop-kept e n (suc left) r =
    ground (arith, read_round-kept e n r, read_loop-kept e n left (read_round e n r).1)

stream_round-kept :
    (n i : ℕ) (s : Streaming) → (stream_round n i s).1.port.read_semaphore ≡ s.port.read_semaphore
unfolding stream_round
stream_round-kept n i s = ground arith

stream_loop-kept :
    (n i left : ℕ) (s : Streaming)
    → (stream_loop n i left s).port.read_semaphore ≡ s.port.read_semaphore
unfolding stream_loop
stream_loop-kept n i zero s = refl
stream_loop-kept n i (suc left) s =
    ground (arith, stream_round-kept n i s, stream_loop-kept n (i + 1) left (stream_round n i s).1)

deliver-kept :
    (e : Env) (bytes : List ℕ) (p : Port) → (deliver e bytes p).1.read_semaphore ≡ p.read_semaphore
unfolding deliver
deliver-kept e bytes p = ground arith

read_frames-kept :
    (e : Env) (n b : ℕ) (p : Port) → (read_frames e n b p).port.read_semaphore ≡ p.read_semaphore
unfolding read_frames
read_frames-kept e n b p = read_loop-kept e n p.memory.rx_num _

user_read_frame-kept :
    (e : Env) (n : ℕ) (p : Port) → (user_read_frame e n p).1.read_semaphore ≡ p.read_semaphore
unfolding user_read_frame
user_read_frame-kept e n p =
    let p2 = emit (spin_lock rx_lock) (emit (kzalloc n) p) in
    let r = read_frames e n (user_next_read_size p2).1 p2 in
    ground (
      arith,
      read_frames-kept e n (user_next_read_size p2).1 p2,
      deliver-kept e r.temp_data (emit (spin_unlock rx_lock) r.port),
    )

user_read_stream-kept :
    (e : Env) (n : ℕ) (p : Port) → (user_read_stream e n p).1.read_semaphore ≡ p.read_semaphore
unfolding user_read_stream
user_read_stream-kept e n p =
    let p2 = emit (spin_lock rx_lock) (emit (kzalloc n) p) in
    let s = stream_loop n 0 p2.memory.rx_num (record { port = p2; temp_data = [] }) in
    ground (
      arith,
      stream_loop-kept n 0 p2.memory.rx_num (record { port = p2; temp_data = [] }),
      deliver-kept e s.temp_data (emit (spin_unlock rx_lock) s.port),
    )

pub io_read-kept :
    (e : Env) (n : ℕ) (p : Port) → (io_read e n p).1.read_semaphore ≡ p.read_semaphore
unfolding io_read
io_read-kept e n p = ground (arith, user_read_frame-kept e n p, user_read_stream-kept e n p)
