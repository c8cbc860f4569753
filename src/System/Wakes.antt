-- ===== src/System/Wakes.antt =====
-- io.c and isr.c: who wakes a writer that waits for space.
use fscc_linux.Prelude.{
  ℕ, zero, suc, ◌+◌, ◌≡◌, refl, ◌∙◌, arith, List, [], ◌∷◌, Bool, false, Bool-cases, inl, inr,
  if◌then◌else◌, ltb,
}
use fscc_linux.Kernel.{
  Env, Lock, spin_lock, spin_unlock, tx_lock, Trace, wake_up, output_queue, truthy,
}
use fscc_linux.State.{Port, frame_at, emit}
use fscc_linux.Offsets.{bc_fifo_l_offset, isr_offset}
use fscc_linux.Card
use fscc_linux.Port.Access.{
  get_register, poll_star, timed_out, write_through, set_register, set_register_rep,
}
use fscc_linux.Io.Dma.{get_tfcnt, get_txcnt, execute_transmit}
use fscc_linux.Io.Fifo.Send.{
  tx_fifo_size, fifo_room, Sending, send_frame, send_loop, fifo_write_data, transmit_frame,
}
use fscc_linux.Isr.{isr, dispatch, reset_timer, oframe_worker, timer_handler}

-- How often a port's calls have woken the waiters for space.
unfoldable pub writer_wakes : Trace → ℕ
writer_wakes [] = 0
writer_wakes (wake_up output_queue ∷ t) = writer_wakes t + 1
writer_wakes (_ ∷ t) = writer_wakes t

abbrev pub wakes : Port → ℕ
wakes p = writer_wakes p.trace

get_register-wakes :
    (e : Env) (bar offset : ℕ) (p : Port) → wakes (get_register e bar offset p).1 ≡ wakes p
unfolding get_register Card.get_register writer_wakes
get_register-wakes e bar offset p = ground arith

poll_star-wakes : (e : Env) (left : ℕ) (p : Port) → wakes (poll_star e left p).1 ≡ wakes p
unfolding poll_star
poll_star-wakes e zero p = refl
poll_star-wakes e (suc left) p =
    ground
      (arith, get_register-wakes e 0 0x18 p, poll_star-wakes e left (get_register e 0 0x18 p).1)

write_through-wakes :
    (bar offset value : ℕ) (p : Port) → wakes (write_through bar offset value p) ≡ wakes p
unfolding write_through Card.set_register writer_wakes
write_through-wakes bar offset value p = ground arith

set_register-wakes :
    (e : Env) (bar offset value : ℕ) (p : Port)
    → wakes (set_register e bar offset value p).1 ≡ wakes p
unfolding set_register timed_out
set_register-wakes e bar offset value p = ground (
  arith,
  poll_star-wakes e 50 p,
  write_through-wakes bar offset value p,
  write_through-wakes bar offset value (poll_star e 50 p).1,
)

set_register_rep-wakes :
    (bar offset : ℕ) (bytes : List ℕ) (count : ℕ) (p : Port)
    → wakes (set_register_rep bar offset bytes count p) ≡ wakes p
unfolding set_register_rep Card.set_register_rep writer_wakes
set_register_rep-wakes bar offset bytes count p = ground arith

send_frame-wakes :
    (s : Sending)
    → wakes (send_frame (frame_at s.port.tx_descriptors s.port.fifo_tx_desc) s).port ≡ wakes s.port
unfolding send_frame
send_frame-wakes s =
    let f = frame_at s.port.tx_descriptors s.port.fifo_tx_desc in
    set_register_rep-wakes 0 _ f.buffer f.desc.data_count s.port

send_loop-wakes :
    (tfcnt left : ℕ) (s : Sending) → wakes (send_loop tfcnt left s).port ≡ wakes s.port
unfolding send_loop
send_loop-wakes tfcnt zero s = refl
send_loop-wakes tfcnt (suc left) s =
    let f = frame_at s.port.tx_descriptors s.port.fifo_tx_desc in
    ground (arith, send_frame-wakes s, send_loop-wakes tfcnt left (send_frame f s))

get_tfcnt-wakes : (e : Env) (p : Port) → wakes (get_tfcnt e p).1 ≡ wakes p
unfolding get_tfcnt
get_tfcnt-wakes e p = get_register-wakes e 0 0x10 p

get_txcnt-wakes : (e : Env) (p : Port) → wakes (get_txcnt e p).1 ≡ wakes p
unfolding get_txcnt
get_txcnt-wakes e p = get_register-wakes e 0 0x0c p

execute_transmit-wakes :
    (e : Env) (dma : Bool) (p : Port) → wakes (execute_transmit e dma p) ≡ wakes p
unfolding execute_transmit
execute_transmit-wakes e dma p = set_register-wakes e _ _ _ p

emit_lock-wakes :
    (l : Lock) (p : Port)
    → (wakes (emit (spin_lock l) p) ≡ wakes p) × (wakes (emit (spin_unlock l) p) ≡ wakes p)
unfolding writer_wakes
emit_lock-wakes l p = (refl, refl)

fifo_write_data-wakes : (e : Env) (p : Port) → wakes (fifo_write_data e p).1 ≡ wakes p
unfolding fifo_write_data
fifo_write_data-wakes e p = elim (Bool-cases (ltb 254 (get_tfcnt e p).0)) [
  | inl full ↦ rw full (get_tfcnt-wakes e p)
  | inr few ↦ rw few (elim (Bool-cases (ltb tx_fifo_size (fifo_room (get_txcnt e p1).0))) [
    | inl over ↦ rw over counted
    | inr room ↦ rw room (
        (emit_lock-wakes tx_lock ended).1
        ∙ sized s.frame_size s.port
        ∙ send_loop-wakes (get_tfcnt e p).0 p2.memory.tx_num begun
        ∙ (emit_lock-wakes tx_lock p2).0
        ∙ counted)
  ])
]
  where
    p1 : Port
    p1 = (get_tfcnt e p).1

    p2 : Port
    p2 = (get_txcnt e p1).1

    counted : wakes p2 ≡ wakes p
    counted = get_txcnt-wakes e p1 ∙ get_tfcnt-wakes e p

    begun : Sending
    begun = record {
      port = emit (spin_lock tx_lock) p2;
      fifo_space = fifo_room (get_txcnt e p1).0;
      frame_size = 0;
      data_written = 0;
    }

    s : Sending
    s = send_loop (get_tfcnt e p).0 p2.memory.tx_num begun

    ended : Port
    ended =
        if truthy s.frame_size
        then (set_register e 0 bc_fifo_l_offset s.frame_size s.port).1
        else s.port

    sized :
        (n : ℕ) (q : Port)
        → wakes (if truthy n then (set_register e 0 bc_fifo_l_offset n q).1 else q) ≡ wakes q
    sized n q = elim (Bool-cases (truthy n)) [
      | inl some_size ↦ rw some_size (set_register-wakes e 0 bc_fifo_l_offset n q)
      | inr no_size ↦ rw no_size refl
    ]

-- The worker that gives descriptors back to the writers never wakes one that waits for them, and
-- neither does the interrupt handler nor the timer.
pub transmit-wakes :
    (e : Env) (cards : List (List ℕ)) (port : ℕ) (p : Port)
    → (wakes (oframe_worker e p) ≡ wakes p)
      × (wakes (isr e cards port p).1 ≡ wakes p)
      × (wakes (timer_handler p) ≡ wakes p)
unfolding oframe_worker transmit_frame isr dispatch reset_timer timer_handler writer_wakes
transmit-wakes e cards port p = (
  ground (arith, fifo_write_data-wakes e p, execute_transmit-wakes e false (fifo_write_data e p).1),
  ground (arith, get_register-wakes e 0 isr_offset p),
  ground arith,
)
