-- ===== src/System/Receive.antt =====
-- io.c: fscc_fifo_read_data and the two rings.
use fscc_linux.Prelude.{
  ℕ, ◌+◌, ◌≤◌, ◌<◌, ◌≡◌, ◌≢◌, refl, sym, ap, ◌∙◌, arith, List, ◌++◌, true, false, Bool-cases, inl,
  inr, length, length-append, length-take, length-drop, take, drop, bit_and, bit_or, bit_or_ge,
  bit_and-bit_or, bit_or-zero,
}
use fscc_linux.Kernel.{Env, truthy}
use fscc_linux.Offsets.{desc_fe_bit, desc_cstop_bit, dma_max_length}
use fscc_linux.State.{Port, frame_at, has, next_desc}
use fscc_linux.Ring.{next_desc-lt}
use fscc_linux.Port.Clock.{clear}
use fscc_linux.Port.Access.{get_register_rep}
use fscc_linux.Port.Access.Keeps.{get_register-Keeps, get_register_rep-Keeps}
use fscc_linux.Io.Dma.{get_rfcnt}
use fscc_linux.Io.Dma.Keeps.{get_rfcnt-Keeps, get_rxcnt-Keeps}
use fscc_linux.Io.Ready.{stamp_rx}
use fscc_linux.Io.Ready.RxRing.{IsRxRing}
use fscc_linux.Io.Fifo.Receive.{
  fetch_frame_size, bytes_waiting, overlay, take_bytes, finish_full, finish_frame, store_control,
}
use fscc_linux.System.Same.{SameRx, IsRxRing-same, Keeps-SameRx}
use fscc_linux.System.Frames.{IsUpdated-IsRxRing, stamp_rx-IsRxRing, length-get_register_rep}

pub fetch_frame_size-SameRx : (e : Env) (p : Port) → SameRx p (fetch_frame_size e p)
unfolding fetch_frame_size
fetch_frame_size-SameRx e p =
    ground (arith, get_rfcnt-Keeps e p, get_register-Keeps e 0 4 (get_rfcnt e p).1)

pub bytes_waiting-SameRx : (e : Env) (p : Port) → SameRx p (bytes_waiting e p).1
unfolding bytes_waiting
bytes_waiting-SameRx e p = ground (arith, get_rxcnt-Keeps e p)

pub finish_frame-SameRx : (control : ℕ) (p : Port) → SameRx p (finish_frame control p).1
unfolding finish_frame
finish_frame-SameRx control p = ground arith

length-overlay :
    (buffer : List ℕ) (offset : ℕ) (bytes : List ℕ)
    → offset + length bytes ≤ length buffer
    → length (overlay buffer offset bytes) ≡ length buffer
unfolding overlay
length-overlay buffer offset bytes h = omega (
  arith,
  length-append (take offset buffer ++ bytes) (drop (offset + length bytes) buffer),
  length-append (take offset buffer) bytes,
  length-take offset buffer,
  length-drop (offset + length bytes) buffer,
)

pub take_bytes-IsRxRing :
    (e : Env) (i offset n : ℕ) (p : Port)
    → i < p.memory.rx_num
    → offset + n ≤ p.memory.rx_size
    → IsRxRing p
    → IsRxRing (take_bytes e i offset n p)
unfolding take_bytes
take_bytes-IsRxRing e i offset n p lt room v = elim (Bool-cases (truthy n)) [
  | inr none_left ↦ rw none_left v
  | inl some_left ↦
      (let p1 = (get_register_rep e 0 0 n p).1 in
        let bytes = (get_register_rep e 0 0 n p).0 in
        let kept = Keeps-SameRx (get_register_rep-Keeps e 0 0 n p) in
        let v1 = IsRxRing-same kept v in
        let h = v1.frames i (omega (arith, ap (λ m. m.rx_num) kept.memory_same)) in
        let fits : offset + length bytes ≤ length (frame_at p1.rx_descriptors i).buffer = omega (
          arith,
          room,
          h.whole,
          length-get_register_rep e 0 n p (ground arith),
          ap (λ m. m.rx_size) kept.memory_same,
        ) in
        rw some_left (
          IsUpdated-IsRxRing {p = p1}
            (record { memory_same = refl; user_same = refl; fifo_same = refl; updated = refl })
            (record {
              whole =
                  length-overlay (frame_at p1.rx_descriptors i).buffer offset bytes fits ∙ h.whole;
              counted = h.counted;
              room = h.room;
            })
            v1))
]

pub take_bytes-fifo :
    (e : Env) (i offset n : ℕ) (p : Port)
    → ((take_bytes e i offset n p).memory ≡ p.memory)
      × ((take_bytes e i offset n p).fifo_rx_desc ≡ p.fifo_rx_desc)
unfolding take_bytes
take_bytes-fifo e i offset n p = ground (arith, get_register_rep-Keeps e 0 0 n p)

-- The bit of a finished descriptor.
cstop-bit_or : (v : ℕ) → has (bit_or v desc_cstop_bit) desc_cstop_bit ≡ true
cstop-bit_or v = ground (
  arith,
  bit_and-bit_or v desc_cstop_bit desc_cstop_bit,
  bit_or_ge (bit_and v desc_cstop_bit) desc_cstop_bit,
)

cstop-bit_or_fe : (v : ℕ) → has (bit_or (bit_or v desc_cstop_bit) desc_fe_bit) desc_cstop_bit ≡ true
cstop-bit_or_fe v = ground (
  arith,
  bit_and-bit_or (bit_or v desc_cstop_bit) desc_fe_bit desc_cstop_bit,
  bit_or-zero (bit_and (bit_or v desc_cstop_bit) desc_cstop_bit),
  cstop-bit_or v,
)

-- A control word whose descriptor is not finished counts less than the buffer.
pub HasRoom : ℕ → ℕ → Type 0
HasRoom size control = has control desc_cstop_bit ≡ false → bit_and control dma_max_length < size

pub finish-HasRoom :
    (size control : ℕ) (p : Port) → HasRoom size (finish_frame (finish_full size control) p).0
unfolding HasRoom finish_frame finish_full
finish-HasRoom size control p =
    ground (arith, cstop-bit_or (clear control dma_max_length), cstop-bit_or_fe p.rx_frame_size)

true_ne_false : true ≢ false
true_ne_false q = ground arith

pub store_control-IsRxRing :
    (e : Env) (i control : ℕ) (p : Port)
    → i < p.memory.rx_num
    → HasRoom p.memory.rx_size control
    → IsRxRing p
    → IsRxRing (store_control e i control p)
unfolding store_control stamp_rx HasRoom
store_control-IsRxRing e i control p lt room v = elim (Bool-cases (has control desc_cstop_bit)) [
  | inl finished ↦
      (let v1 = stamp_rx-IsRxRing e i p lt v in
        let memory : (stamp_rx e i p).memory ≡ p.memory = ground arith in
        let h = v1.frames i (omega (arith, ap (λ m. m.rx_num) memory)) in
        rw finished (
          IsUpdated-IsRxRing {p = stamp_rx e i p}
            (record { memory_same = refl; user_same = refl; fifo_same = refl; updated = refl })
            (record {
              whole = h.whole;
              counted = omega arith;
              room = λ z. absurd (true_ne_false (sym finished ∙ z));
            })
            v1))
  | inr unfinished ↦
      (let h = v.frames i lt in
        rw unfinished (
          IsUpdated-IsRxRing {p = p}
            (record { memory_same = refl; user_same = refl; fifo_same = refl; updated = refl })
            (record { whole = h.whole; counted = h.counted; room = room }) v))
]

pub store_control-fifo :
    (e : Env) (i control : ℕ) (p : Port)
    → ((store_control e i control p).memory ≡ p.memory)
      × ((store_control e i control p).fifo_rx_desc ≡ p.fifo_rx_desc)
unfolding store_control stamp_rx
store_control-fifo e i control p = ground arith

pub advance-IsRxRing :
    (i : ℕ) (p : Port)
    → i < p.memory.rx_num
    → IsRxRing p
    → IsRxRing (record p { fifo_rx_desc = next_desc i p.memory.rx_num })
advance-IsRxRing i p lt v = record {
  array = v.array;
  few = v.few;
  some_size = v.some_size;
  small = v.small;
  user_in = v.user_in;
  fifo_in = next_desc-lt i p.memory.rx_num lt;
  frames = v.frames;
}
