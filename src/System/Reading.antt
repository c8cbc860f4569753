-- ===== src/System/Reading.antt =====
-- io.c: fscc_io_read, and the time stamps, and the two rings.
use fscc_linux.Prelude.{
  ℕ, zero, suc, ◌<◌, ◌≡◌, refl, arith, List, not, ◌&&◌, Bool-cases, inl, inr, set, ◌==◌, ◌||◌, ltb,
}
use fscc_linux.Kernel.{Env, Event, kfree, truthy, spin_lock, spin_unlock, rx_lock, kzalloc}
use fscc_linux.Offsets.{desc_hi_bit}
use fscc_linux.State.{IoFrame, Port, emit, frame_at, next_desc, no_time}
use fscc_linux.Ring.{next_desc-lt}
use fscc_linux.Io.Ready.{stamp_rx, user_next_read_size}
use fscc_linux.Io.Ready.RxRing.{IsRxRing}
use fscc_linux.Io.Read.Frame.{
  Reading, buffer_requirement, move_bytes, append_time, release_rx, next_frame, read_round,
  read_loop, read_frames, deliver, user_read_frame,
}
use fscc_linux.System.Same.{SameTx, SameRx, SameTx-trans, SameTx-refl}
use fscc_linux.System.Frames.{IsUpdated-IsRxRing, stamp_rx-IsRxRing}

pub stamp_rx-SameTx : (e : Env) (i : ℕ) (p : Port) → SameTx p (stamp_rx e i p)
unfolding stamp_rx
stamp_rx-SameTx e i p = ground arith

-- The user's index moves on to the next descriptor.
pub turn-IsRxRing :
    (i : ℕ) (p : Port)
    → i < p.memory.rx_num
    → IsRxRing p
    → IsRxRing (record p { user_rx_desc = next_desc i p.memory.rx_num })
turn-IsRxRing i p lt v = record {
  array = v.array;
  few = v.few;
  some_size = v.some_size;
  small = v.small;
  user_in = next_desc-lt i p.memory.rx_num lt;
  fifo_in = v.fifo_in;
  frames = v.frames;
}

release_rx-IsRxRing : (p : Port) → IsRxRing p → IsRxRing (release_rx p)
unfolding release_rx
release_rx-IsRxRing p v =
    let h = v.frames p.user_rx_desc v.user_in in
    let f = frame_at p.rx_descriptors p.user_rx_desc in
    let freed : IoFrame = record f {
      timestamp = no_time;
      desc = record (f.desc) { control = desc_hi_bit };
    } in
    turn-IsRxRing p.user_rx_desc
      (record p { rx_descriptors = set p.rx_descriptors p.user_rx_desc freed }) v.user_in
      (IsUpdated-IsRxRing {p = p}
        (record { memory_same = refl; user_same = refl; fifo_same = refl; updated = refl })
        (record { whole = h.whole; counted = h.counted; room = λ z. v.some_size }) v)

append_time-IsRxRing : (e : Env) (r : Reading) → IsRxRing r.port → IsRxRing (append_time e r).port
unfolding append_time
append_time-IsRxRing e r v =
    elim (Bool-cases (r.bytes_in_descs == 0 && truthy r.port.append_timestamp)) [
      | inl due ↦ rw due (stamp_rx-IsRxRing e r.port.user_rx_desc r.port v.user_in v)
      | inr not_due ↦ rw not_due v
    ]

next_frame-port : (n : ℕ) (r : Reading) → (next_frame n r).1.port ≡ r.port
unfolding next_frame
next_frame-port n r = ground arith

-- A property of ports that both parts of a round keep, and the end of the round with it.
round_port :
    (e : Env) (n : ℕ) (r : Reading) (P : Port → Type 0)
    → P (release_rx (append_time e (move_bytes r)).port)
    → P (read_round e n r).1.port
unfolding read_round
round_port e n r P h =
    let r1 = append_time e (move_bytes r) in
    let r2 : Reading = record r1 { port = release_rx r1.port } in
    elim (Bool-cases (r1.bytes_in_descs == 0)) [
      | inr unfinished ↦ rw unfinished h
      | inl ended ↦ elim (Bool-cases (truthy r2.port.rx_multiple)) [
        | inl multiple ↦ rw (ended, multiple) (rw (next_frame-port n r2) h)
        | inr single ↦ rw (ended, single) h
      ]
    ]

read_round-IsRxRing :
    (e : Env) (n : ℕ) (r : Reading) → IsRxRing r.port → IsRxRing (read_round e n r).1.port
unfolding move_bytes
read_round-IsRxRing e n r v = round_port e n r IsRxRing (
    release_rx-IsRxRing (append_time e (move_bytes r)).port
      (append_time-IsRxRing e (move_bytes r) v))

pub read_loop-IsRxRing :
    (e : Env) (n left : ℕ) (r : Reading) → IsRxRing r.port → IsRxRing (read_loop e n left r).port
unfolding read_loop
read_loop-IsRxRing e n zero r v = v
read_loop-IsRxRing e n (suc left) r v = elim (Bool-cases (read_round e n r).0) [
  | inl more ↦
      rw more (read_loop-IsRxRing e n left (read_round e n r).1 (read_round-IsRxRing e n r v))
  | inr ended ↦ rw ended (read_round-IsRxRing e n r v)
]

read_round-SameTx : (e : Env) (n : ℕ) (r : Reading) → SameTx r.port (read_round e n r).1.port
unfolding move_bytes append_time release_rx
read_round-SameTx e n r =
    round_port e n r (SameTx r.port) (ground (arith, stamp_rx-SameTx e r.port.user_rx_desc r.port))

pub read_loop-SameTx :
    (e : Env) (n left : ℕ) (r : Reading) → SameTx r.port (read_loop e n left r).port
unfolding read_loop
read_loop-SameTx e n zero r = SameTx-refl r.port
read_loop-SameTx e n (suc left) r = elim (Bool-cases (read_round e n r).0) [
  | inl more ↦
      rw more
        (SameTx-trans (read_round-SameTx e n r) (read_loop-SameTx e n left (read_round e n r).1))
  | inr ended ↦ rw ended (read_round-SameTx e n r)
]

-- The copy to the user only makes calls.
pub deliver-SameTx : (e : Env) (bytes : List ℕ) (p : Port) → SameTx p (deliver e bytes p).1
unfolding deliver
deliver-SameTx e bytes p = ground arith

pub deliver-SameRx : (e : Env) (bytes : List ℕ) (p : Port) → SameRx p (deliver e bytes p).1
unfolding deliver
deliver-SameRx e bytes p = ground arith

-- A property of ports that calls, the loop and the copy keep.
pub frame_port :
    (e : Env) (n : ℕ) (p : Port) (P : Port → Type 0)
    → P p
    → ((v : Event) (q : Port) → P q → P (emit v q))
    → ((r : Reading) → P r.port → P (read_loop e n r.port.memory.rx_num r).port)
    → ((bytes : List ℕ) (q : Port) → P q → P (deliver e bytes q).1)
    → P (user_read_frame e n p).1
unfolding user_read_frame read_frames
frame_port e n p P h called looped copied = elim (Bool-cases (e.allocates p.trace n)) [
  | inr refused ↦ rw refused h1
  | inl given ↦
      rw given
        (elim (Bool-cases (
          not (user_next_read_size p2).0
          || ltb n (buffer_requirement p2 (user_next_read_size p2).1))) [
            | inl too_small ↦ rw too_small (called kfree _ (called (spin_unlock rx_lock) p2 h2))
            | inr fits ↦ rw fits (copied _ _ (called (spin_unlock rx_lock) _ (looped _ h2)))
          ])
]
  where
    p2 : Port
    p2 = emit (spin_lock rx_lock) (emit (kzalloc n) p)

    h1 : P (emit (kzalloc n) p)
    h1 = called (kzalloc n) p h

    h2 : P p2
    h2 = called (spin_lock rx_lock) (emit (kzalloc n) p) h1
