-- ===== src/System/Receiving.antt =====
-- io.c: the rounds of fscc_fifo_read_data, and the two rings.
use fscc_linux.Prelude.{
  ℕ, zero, suc, ◌+◌, ◌<◌, ◌≡◌, refl, ap, ◌∙◌, arith, false, Bool-cases, inl, inr, min, bit_and,
}
use fscc_linux.Kernel.{Env, u32, spin_lock, spin_unlock, rx_lock}
use fscc_linux.Offsets.{desc_cstop_bit, dma_max_length}
use fscc_linux.State.{Port, emit, control_at, has}
use fscc_linux.Port.Access.Keeps.{get_register-Keeps, get_register_rep-Keeps}
use fscc_linux.Io.Dma.{get_rfcnt}
use fscc_linux.Io.Dma.Keeps.{get_rfcnt-Keeps, get_rxcnt-Keeps}
use fscc_linux.Io.Ready.{stamp_rx}
use fscc_linux.Io.Ready.RxRing.{IsRxRing}
use fscc_linux.Io.Fifo.Receive.{
  sub32, fetch_frame_size, bytes_waiting, take_bytes, finish_full, finish_frame, store_control,
  receive_round, receive_loop, fifo_read_data,
}
use fscc_linux.System.Same.{
  SameTx, SameTx-trans, SameRx-trans, IsRxRing-same, emit-SameRx, emit-SameTx, SameTx-refl,
}
use fscc_linux.System.Receive.{
  HasRoom, advance-IsRxRing, bytes_waiting-SameRx, fetch_frame_size-SameRx, finish-HasRoom,
  finish_frame-SameRx, store_control-IsRxRing, store_control-fifo, take_bytes-IsRxRing,
  take_bytes-fifo,
}

-- A round on a descriptor that is not finished, up to the store.
taken : Env → Port → Port
taken e p =
    let offset = bit_and (control_at p.rx_descriptors p.fifo_rx_desc) dma_max_length in
    let (waiting, p1) = bytes_waiting e (fetch_frame_size e p) in
    let n = min waiting (sub32 p1.memory.rx_size offset) in
    let p2 = take_bytes e p.fifo_rx_desc offset n p1 in
    record p2 { rx_bytes_in_frame = u32 (p2.rx_bytes_in_frame + n) }

taken-IsRxRing :
    (e : Env) (p : Port)
    → has (control_at p.rx_descriptors p.fifo_rx_desc) desc_cstop_bit ≡ false
    → IsRxRing p
    → IsRxRing (taken e p) × ((taken e p).fifo_rx_desc ≡ p.fifo_rx_desc)
unfolding taken
taken-IsRxRing e p free v =
    let offset = bit_and (control_at p.rx_descriptors p.fifo_rx_desc) dma_max_length in
    let p1 = (bytes_waiting e (fetch_frame_size e p)).1 in
    let n = min (bytes_waiting e (fetch_frame_size e p)).0 (sub32 p1.memory.rx_size offset) in
    let same =
      SameRx-trans (fetch_frame_size-SameRx e p) (bytes_waiting-SameRx e (fetch_frame_size e p)) in
    let v1 = IsRxRing-same same v in
    let inside = (v.frames p.fifo_rx_desc v.fifo_in).room free in
    let size : p1.memory.rx_size ≡ p.memory.rx_size = ap (λ m. m.rx_size) same.memory_same in
    let (memory, fifo) = take_bytes-fifo e p.fifo_rx_desc offset n p1 in
    let v2 =
      take_bytes-IsRxRing e p.fifo_rx_desc offset n p1 (omega (arith, v1.fifo_in, same.fifo_same))
        (omega (arith, inside, size, v.small)) v1 in
    (
      IsRxRing-same {p = take_bytes e p.fifo_rx_desc offset n p1}
          (record { memory_same = refl; frames_same = refl; user_same = refl; fifo_same = refl })
          v2,
      fifo ∙ same.fifo_same,
    )

-- The control word that a round leaves, and the port with the count of a finished frame reset.
finished : Env → Port → ℕ × Port
finished e p =
    finish_frame
      (finish_full (taken e p).memory.rx_size (
        u32 (
          control_at p.rx_descriptors p.fifo_rx_desc
          + min (bytes_waiting e (fetch_frame_size e p)).0 (
              sub32 (bytes_waiting e (fetch_frame_size e p)).1.memory.rx_size
                (bit_and (control_at p.rx_descriptors p.fifo_rx_desc) dma_max_length)))))
      (taken e p)

stored-IsRxRing :
    (e : Env) (p : Port)
    → has (control_at p.rx_descriptors p.fifo_rx_desc) desc_cstop_bit ≡ false
    → IsRxRing p
    → IsRxRing (store_control e p.fifo_rx_desc (finished e p).0 (finished e p).1)
      × (p.fifo_rx_desc
          < (store_control e p.fifo_rx_desc (finished e p).0 (finished e p).1).memory.rx_num)
unfolding finished
stored-IsRxRing e p free v =
    let (v3, fifo) = taken-IsRxRing e p free v in
    let same = finish_frame-SameRx _ (taken e p) in
    let v4 = IsRxRing-same same v3 in
    let lt : p.fifo_rx_desc < (finished e p).1.memory.rx_num =
      omega (arith, v4.fifo_in, same.fifo_same, fifo) in
    let room : HasRoom (finished e p).1.memory.rx_size (finished e p).0 =
      rw same.memory_same (finish-HasRoom (taken e p).memory.rx_size _ (taken e p)) in
    (
      store_control-IsRxRing e p.fifo_rx_desc (finished e p).0 (finished e p).1 lt room v4,
      rw (store_control-fifo e p.fifo_rx_desc (finished e p).0 (finished e p).1).0 lt,
    )

receive_round-IsRxRing : (e : Env) (p : Port) → IsRxRing p → IsRxRing (receive_round e p).1
unfolding receive_round finished taken
receive_round-IsRxRing e p v =
    elim (Bool-cases (has (control_at p.rx_descriptors p.fifo_rx_desc) desc_cstop_bit)) [
      | inl full ↦ rw full v
      | inr free ↦
          (let (v5, lt) = stored-IsRxRing e p free v in
            rw free (elim (Bool-cases (has (finished e p).0 desc_cstop_bit)) [
              | inl more ↦ rw more (advance-IsRxRing p.fifo_rx_desc _ lt v5)
              | inr waiting ↦ rw waiting v5
            ]))
    ]

receive_loop-IsRxRing :
    (e : Env) (left : ℕ) (p : Port) → IsRxRing p → IsRxRing (receive_loop e left p)
unfolding receive_loop
receive_loop-IsRxRing e zero p v = v
receive_loop-IsRxRing e (suc left) p v =
    let v1 = receive_round-IsRxRing e p v in
    elim (Bool-cases (receive_round e p).0) [
      | inl more ↦ rw more (receive_loop-IsRxRing e left (receive_round e p).1 v1)
      | inr ended ↦ rw ended v1
    ]

-- Draining the FIFO keeps the receive ring well formed: with a well-formed ring, no byte is written
-- behind the end of a descriptor's buffer, and no index leaves the ring.
pub fifo_read_data-IsRxRing : (e : Env) (p : Port) → IsRxRing p → IsRxRing (fifo_read_data e p).1
unfolding fifo_read_data
fifo_read_data-IsRxRing e p v = IsRxRing-same (emit-SameRx (spin_unlock rx_lock) _) (
    receive_loop-IsRxRing e p.memory.rx_num (emit (spin_lock rx_lock) p)
      (IsRxRing-same (emit-SameRx (spin_lock rx_lock) p) v))

-- The transmit ring is not concerned.
fetch_frame_size-SameTx : (e : Env) (p : Port) → SameTx p (fetch_frame_size e p)
unfolding fetch_frame_size
fetch_frame_size-SameTx e p =
    ground (arith, get_rfcnt-Keeps e p, get_register-Keeps e 0 4 (get_rfcnt e p).1)

bytes_waiting-SameTx : (e : Env) (p : Port) → SameTx p (bytes_waiting e p).1
unfolding bytes_waiting
bytes_waiting-SameTx e p = ground (arith, get_rxcnt-Keeps e p)

taken-SameTx : (e : Env) (p : Port) → SameTx p (taken e p)
unfolding taken take_bytes
taken-SameTx e p =
    let f = fetch_frame_size e p in
    let p1 = (bytes_waiting e f).1 in
    let n = min (bytes_waiting e f).0 (
      sub32 p1.memory.rx_size
        (bit_and (control_at p.rx_descriptors p.fifo_rx_desc) dma_max_length)) in
    ground (
      arith,
      fetch_frame_size-SameTx e p,
      bytes_waiting-SameTx e f,
      get_register_rep-Keeps e 0 0 n p1,
    )

stored-SameTx :
    (e : Env) (p : Port)
    → SameTx p (store_control e p.fifo_rx_desc (finished e p).0 (finished e p).1)
unfolding store_control stamp_rx finished finish_frame
stored-SameTx e p = ground (arith, taken-SameTx e p)

advance-SameTx : {p q : Port} (i : ℕ) → SameTx p q → SameTx p (record q { fifo_rx_desc = i })
advance-SameTx i s = record {
  memory_same = s.memory_same;
  frames_same = s.frames_same;
  user_same = s.user_same;
  fifo_same = s.fifo_same;
}

receive_round-SameTx : (e : Env) (p : Port) → SameTx p (receive_round e p).1
unfolding receive_round finished taken
receive_round-SameTx e p =
    elim (Bool-cases (has (control_at p.rx_descriptors p.fifo_rx_desc) desc_cstop_bit)) [
      | inl full ↦ rw full (SameTx-refl p)
      | inr free ↦ rw free (elim (Bool-cases (has (finished e p).0 desc_cstop_bit)) [
        | inl more ↦ rw more (advance-SameTx _ (stored-SameTx e p))
        | inr waiting ↦ rw waiting (stored-SameTx e p)
      ])
    ]

receive_loop-SameTx : (e : Env) (left : ℕ) (p : Port) → SameTx p (receive_loop e left p)
unfolding receive_loop
receive_loop-SameTx e zero p = SameTx-refl p
receive_loop-SameTx e (suc left) p = elim (Bool-cases (receive_round e p).0) [
  | inl more ↦
      rw more
        (SameTx-trans (receive_round-SameTx e p) (receive_loop-SameTx e left (receive_round e p).1))
  | inr ended ↦ rw ended (receive_round-SameTx e p)
]

pub fifo_read_data-SameTx : (e : Env) (p : Port) → SameTx p (fifo_read_data e p).1
unfolding fifo_read_data
fifo_read_data-SameTx e p = SameTx-trans (emit-SameTx (spin_lock rx_lock) p) (
    SameTx-trans (receive_loop-SameTx e p.memory.rx_num (emit (spin_lock rx_lock) p))
      (emit-SameTx (spin_unlock rx_lock) _))
