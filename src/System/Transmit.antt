-- ===== src/System/Transmit.antt =====
-- io.c: the transmit side, and the two rings.
use fscc_linux.Prelude.{
  ℕ, zero, suc, ◌+◌, ◌<◌, ◌≡◌, refl, ◌∙◌, arith, List, true, Bool-cases, inl, inr, length,
  length-set,
}
use fscc_linux.Kernel.{Env, Event, kfree, spin_lock, spin_unlock, tx_lock, kzalloc, copy_from, ok}
use fscc_linux.Offsets.{dtdb_offset}
use fscc_linux.State.{Port, emit}
use fscc_linux.Ring.{next_desc-lt}
use fscc_linux.Port.Access.{set_register}
use fscc_linux.Port.Access.Keeps.{Keeps, Keeps-refl, Keeps-trans, set_register-Keeps}
use fscc_linux.Io.Dma.{is_tx_running}
use fscc_linux.Io.Dma.Keeps.{is_tx_running-Keeps, execute_transmit-Keeps}
use fscc_linux.Io.Write.{Writing, write_round, write_loop, start_dma, user_write_frame}
use fscc_linux.Io.Ready.Space.{IsTxRing}
use fscc_linux.System.Same.{
  SameRx, SameRx-trans, SameRx-refl, Keeps-SameTx, Keeps-SameRx, IsTxRing-same, emit-SameTx,
  emit-SameRx,
}

-- `q` is `p` but for one transmit frame and an index, which moves to the next descriptor.
pub record IsTurned (p q : Port) : Type 0 where
  pub memory_same : q.memory ≡ p.memory
  pub array_same : length q.tx_descriptors ≡ length p.tx_descriptors
  pub user_in : q.user_tx_desc < p.memory.tx_num
  pub fifo_in : q.fifo_tx_desc < p.memory.tx_num

pub IsTurned-IsTxRing : {p q : Port} → IsTurned p q → IsTxRing p → IsTxRing q
IsTurned-IsTxRing t v = record {
  array = rw t.memory_same (t.array_same ∙ v.array);
  few = rw t.memory_same v.few;
  bounded = rw t.memory_same v.bounded;
  user_in = rw t.memory_same t.user_in;
  fifo_in = rw t.memory_same t.fifo_in;
}

write_round-IsTxRing :
    (bytes : List ℕ) (n i : ℕ) (w : Writing)
    → IsTxRing w.port
    → IsTxRing (write_round bytes n i w).port
unfolding write_round
write_round-IsTxRing bytes n i w v =
    IsTurned-IsTxRing {p = w.port}
      (record {
        memory_same = refl;
        array_same = length-set w.port.tx_descriptors w.port.user_tx_desc _;
        user_in = next_desc-lt w.port.user_tx_desc w.port.memory.tx_num v.user_in;
        fifo_in = v.fifo_in;
      })
      v

write_loop-IsTxRing :
    (bytes : List ℕ) (n i left : ℕ) (w : Writing)
    → IsTxRing w.port
    → IsTxRing (write_loop bytes n i left w).port
unfolding write_loop
write_loop-IsTxRing bytes n i zero w v = v
write_loop-IsTxRing bytes n i (suc left) w v =
    let v1 = write_round-IsTxRing bytes n i w v in
    ground (arith, v, v1, write_loop-IsTxRing bytes n (i + 1) left (write_round bytes n i w) v1)

write_loop-SameRx :
    (bytes : List ℕ) (n i left : ℕ) (w : Writing) → SameRx w.port (write_loop bytes n i left w).port
unfolding write_loop write_round
write_loop-SameRx bytes n i zero w = SameRx-refl w.port
write_loop-SameRx bytes n i (suc left) w =
    ground (arith, write_loop-SameRx bytes n (i + 1) left (write_round bytes n i w))

start_dma-Keeps : (e : Env) (start_desc : ℕ) (p : Port) → Keeps p (start_dma e start_desc p)
unfolding start_dma
start_dma-Keeps e d p =
    let p1 = (is_tx_running e p).1 in
    let p2 = (set_register e 2 dtdb_offset d p1).1 in
    let run = is_tx_running-Keeps e p in
    ground (
      arith,
      Keeps-refl p,
      run,
      Keeps-trans run (
          Keeps-trans (set_register-Keeps e 2 dtdb_offset d p1) (execute_transmit-Keeps e true p2)),
    )

-- A property of ports that calls and the loop of fscc_user_write_frame keep.
write_port :
    (e : Env) (buf : List ℕ) (n : ℕ) (p : Port) (P : Port → Type 0)
    → P p
    → ((v : Event) (q : Port) → P q → P (emit v q))
    → ((bytes : List ℕ) (w : Writing)
        → P w.port
        → P (write_loop bytes n 0 w.port.memory.tx_num w).port)
    → ((d : ℕ) (q : Port) → P q → P (start_dma e d q))
    → P (user_write_frame e buf n p).1
unfolding user_write_frame
write_port e buf n p P h called looped started = elim (Bool-cases (e.allocates p.trace n)) [
  | inr refused ↦ rw refused h1
  | inl given ↦ rw given (
      called kfree _ (
        started _ _ (
          called (spin_unlock tx_lock) _
            (looped _ (record { port = p2; out_length = 0; start_desc = 0; status = ok 0 }) h2))))
]
  where
    p2 : Port
    p2 = emit (spin_lock tx_lock) (emit (copy_from n) (emit (kzalloc n) p))

    h1 : P (emit (kzalloc n) p)
    h1 = called (kzalloc n) p h

    h2 : P p2
    h2 = called (spin_lock tx_lock) _ (called (copy_from n) (emit (kzalloc n) p) h1)

-- Writing keeps the transmit ring well formed, and does not concern the receive ring.
pub user_write_frame-IsTxRing :
    (e : Env) (buf : List ℕ) (n : ℕ) (p : Port)
    → IsTxRing p
    → IsTxRing (user_write_frame e buf n p).1
user_write_frame-IsTxRing e buf n p v =
    write_port e buf n p IsTxRing v (λ t q. IsTxRing-same (emit-SameTx t q))
      (λ bytes w. write_loop-IsTxRing bytes n 0 w.port.memory.tx_num w)
      (λ d q. IsTxRing-same (Keeps-SameTx (start_dma-Keeps e d q)))

pub user_write_frame-SameRx :
    (e : Env) (buf : List ℕ) (n : ℕ) (p : Port) → SameRx p (user_write_frame e buf n p).1
user_write_frame-SameRx e buf n p =
    write_port e buf n p (SameRx p) (SameRx-refl p) (λ t q h. SameRx-trans h (emit-SameRx t q))
      (λ bytes w h. SameRx-trans h (write_loop-SameRx bytes n 0 w.port.memory.tx_num w))
      (λ d q h. SameRx-trans h (Keeps-SameRx (start_dma-Keeps e d q)))
