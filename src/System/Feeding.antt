-- ===== src/System/Feeding.antt =====
-- io.c: feeding the transmit FIFO, and the two rings.
use fscc_linux.Prelude.{
  ℕ, zero, suc, refl, arith, false, Bool-cases, inl, inr, length-set, ltb, if◌then◌else◌,
}
use fscc_linux.Kernel.{Env, Event, truthy, spin_lock, spin_unlock, tx_lock}
use fscc_linux.Offsets.{fifo_offset, bc_fifo_l_offset}
use fscc_linux.State.{IoFrame, Port, emit, frame_at}
use fscc_linux.Ring.{next_desc-lt}
use fscc_linux.Port.Access.{set_register, set_register_rep}
use fscc_linux.Port.Access.Keeps.{Keeps, set_register-Keeps, set_register_rep-Keeps}
use fscc_linux.Io.Dma.{get_tfcnt, get_txcnt, execute_transmit}
use fscc_linux.Io.Dma.Keeps.{get_tfcnt-Keeps, get_txcnt-Keeps, execute_transmit-Keeps}
use fscc_linux.Io.Fifo.Send.{
  Sending, send_frame, send_loop, stops, fifo_room, tx_fifo_size, fifo_write_data, transmit_frame,
}
use fscc_linux.Io.Ready.Space.{IsTxRing}
use fscc_linux.System.Same.{
  SameRx, SameRx-trans, SameRx-refl, Keeps-SameTx, Keeps-SameRx, IsTxRing-same, emit-SameTx,
  emit-SameRx,
}
use fscc_linux.System.Transmit.{IsTurned-IsTxRing}

send_frame-IsTxRing : (f : IoFrame) (s : Sending) → IsTxRing s.port → IsTxRing (send_frame f s).port
unfolding send_frame
send_frame-IsTxRing f s v =
    let p = s.port in
    let k = set_register_rep-Keeps 0 fifo_offset f.buffer f.desc.data_count p in
    let v1 = IsTxRing-same (Keeps-SameTx k) v in
    IsTurned-IsTxRing {p = set_register_rep 0 fifo_offset f.buffer f.desc.data_count p}
      (record {
        memory_same = refl;
        array_same =
            length-set (set_register_rep 0 fifo_offset f.buffer f.desc.data_count p).tx_descriptors
              p.fifo_tx_desc _;
        user_in = v1.user_in;
        fifo_in = rw k.same_memory (next_desc-lt p.fifo_tx_desc p.memory.tx_num v.fifo_in);
      })
      v1

send_frame-SameRx : (f : IoFrame) (s : Sending) → SameRx s.port (send_frame f s).port
unfolding send_frame
send_frame-SameRx f s =
    ground
      (arith, Keeps-SameRx (set_register_rep-Keeps 0 fifo_offset f.buffer f.desc.data_count s.port))

send_loop-IsTxRing :
    (tfcnt left : ℕ) (s : Sending) → IsTxRing s.port → IsTxRing (send_loop tfcnt left s).port
unfolding send_loop
send_loop-IsTxRing tfcnt zero s v = v
send_loop-IsTxRing tfcnt (suc left) s v =
    let f = frame_at s.port.tx_descriptors s.port.fifo_tx_desc in
    let rest = send_loop-IsTxRing tfcnt left (send_frame f s) (send_frame-IsTxRing f s v) in
    elim (Bool-cases (stops tfcnt f s)) [ inl stop ↦ rw stop v | inr more ↦ rw more rest ]

send_loop-SameRx : (tfcnt left : ℕ) (s : Sending) → SameRx s.port (send_loop tfcnt left s).port
unfolding send_loop
send_loop-SameRx tfcnt zero s = SameRx-refl s.port
send_loop-SameRx tfcnt (suc left) s =
    let f = frame_at s.port.tx_descriptors s.port.fifo_tx_desc in
    let rest =
      SameRx-trans (send_frame-SameRx f s) (send_loop-SameRx tfcnt left (send_frame f s)) in
    elim (Bool-cases (stops tfcnt f s)) [
      | inl stop ↦ rw stop (SameRx-refl s.port)
      | inr more ↦ rw more rest
    ]

-- A property of ports that register access, calls and the loop of fscc_fifo_write_data keep.
send_port :
    (e : Env) (p : Port) (P : Port → Type 0)
    → P p
    → ((q r : Port) → Keeps q r → P q → P r)
    → ((v : Event) (q : Port) → P q → P (emit v q))
    → ((tfcnt : ℕ) (s : Sending) → P s.port → P (send_loop tfcnt s.port.memory.tx_num s).port)
    → P (transmit_frame e p).1
unfolding transmit_frame fifo_write_data
send_port e p P h kept called looped = elim (Bool-cases (ltb 254 (get_tfcnt e p).0)) [
  | inl full ↦ rw full h1
  | inr few ↦ rw few (elim (Bool-cases (ltb tx_fifo_size (fifo_room (get_txcnt e p1).0))) [
    | inl over ↦ rw over h2
    | inr room ↦ rw room (
        transmitted _ _ (
          called (spin_unlock tx_lock) _
            (sized _ _ (looped _ begun (called (spin_lock tx_lock) p2 h2)))))
  ])
]
  where
    p1 : Port
    p1 = (get_tfcnt e p).1

    p2 : Port
    p2 = (get_txcnt e p1).1

    begun : Sending
    begun = record {
      port = emit (spin_lock tx_lock) p2;
      fifo_space = fifo_room (get_txcnt e p1).0;
      frame_size = 0;
      data_written = 0;
    }

    h1 : P p1
    h1 = kept _ _ (get_tfcnt-Keeps e p) h

    h2 : P p2
    h2 = kept _ _ (get_txcnt-Keeps e p1) h1

    transmitted : (n : ℕ) (q : Port) → P q → P (if truthy n then execute_transmit e false q else q)
    transmitted n q k = elim (Bool-cases (truthy n)) [
      | inl some_sent ↦ rw some_sent (kept _ _ (execute_transmit-Keeps e false q) k)
      | inr none_sent ↦ rw none_sent k
    ]

    sized :
        (n : ℕ) (q : Port)
        → P q
        → P (if truthy n then (set_register e 0 bc_fifo_l_offset n q).1 else q)
    sized n q k = elim (Bool-cases (truthy n)) [
      | inl some_size ↦ rw some_size (kept _ _ (set_register-Keeps e 0 bc_fifo_l_offset n q) k)
      | inr no_size ↦ rw no_size k
    ]

-- Feeding the FIFO keeps the transmit ring well formed, and does not concern the receive ring.
pub transmit_frame-IsTxRing : (e : Env) (p : Port) → IsTxRing p → IsTxRing (transmit_frame e p).1
transmit_frame-IsTxRing e p v =
    send_port e p IsTxRing v (λ q r k. IsTxRing-same (Keeps-SameTx k))
      (λ t q. IsTxRing-same (emit-SameTx t q))
      (λ tfcnt s. send_loop-IsTxRing tfcnt s.port.memory.tx_num s)

pub transmit_frame-SameRx : (e : Env) (p : Port) → SameRx p (transmit_frame e p).1
transmit_frame-SameRx e p =
    send_port e p (SameRx p) (SameRx-refl p) (λ q r k h. SameRx-trans h (Keeps-SameRx k))
      (λ t q h. SameRx-trans h (emit-SameRx t q))
      (λ tfcnt s h. SameRx-trans h (send_loop-SameRx tfcnt s.port.memory.tx_num s))
