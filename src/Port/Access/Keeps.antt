-- ===== src/Port/Access/Keeps.antt =====
-- Register access changes nothing of a port but `register_storage` and the trace.
use fscc_linux.Prelude.{ℕ, zero, suc, List, ◌≡◌, arith}
use fscc_linux.Kernel.{Env}
use fscc_linux.State.{Port}
use fscc_linux.Port.Access.{
  get_register, poll_star, timed_out, write_through, set_register, get_register_rep,
  set_register_rep,
}

pub record Keeps (p q : Port) : Type 0 where
  pub same_channel : q.channel ≡ p.channel
  pub same_dma_capable : q.dma_capable ≡ p.dma_capable
  pub same_force_fifo : q.force_fifo ≡ p.force_fifo
  pub same_append_status : q.append_status ≡ p.append_status
  pub same_append_timestamp : q.append_timestamp ≡ p.append_timestamp
  pub same_ignore_timeout : q.ignore_timeout ≡ p.ignore_timeout
  pub same_rx_multiple : q.rx_multiple ≡ p.rx_multiple
  pub same_tx_modifiers : q.tx_modifiers ≡ p.tx_modifiers
  pub same_memory : q.memory ≡ p.memory
  pub same_rx_descriptors : q.rx_descriptors ≡ p.rx_descriptors
  pub same_user_rx_desc : q.user_rx_desc ≡ p.user_rx_desc
  pub same_fifo_rx_desc : q.fifo_rx_desc ≡ p.fifo_rx_desc
  pub same_rx_bytes_in_frame : q.rx_bytes_in_frame ≡ p.rx_bytes_in_frame
  pub same_rx_frame_size : q.rx_frame_size ≡ p.rx_frame_size
  pub same_tx_descriptors : q.tx_descriptors ≡ p.tx_descriptors
  pub same_user_tx_desc : q.user_tx_desc ≡ p.user_tx_desc
  pub same_fifo_tx_desc : q.fifo_tx_desc ≡ p.fifo_tx_desc
  pub same_read_semaphore : q.read_semaphore ≡ p.read_semaphore
  pub same_write_semaphore : q.write_semaphore ≡ p.write_semaphore

pub Keeps-refl : (p : Port) → Keeps p p
Keeps-refl p = ground arith

pub Keeps-trans : {p q r : Port} → Keeps p q → Keeps q r → Keeps p r
Keeps-trans h k = ground arith

pub get_register-Keeps :
    (e : Env) (bar offset : ℕ) (p : Port) → Keeps p (get_register e bar offset p).1
unfolding get_register
get_register-Keeps e bar offset p = ground arith

pub poll_star-Keeps : (e : Env) (left : ℕ) (p : Port) → Keeps p (poll_star e left p).1
unfolding poll_star
poll_star-Keeps e zero p = Keeps-refl p
poll_star-Keeps e (suc left) p =
    ground
      (arith, get_register-Keeps e 0 0x18 p, poll_star-Keeps e left (get_register e 0 0x18 p).1)

pub timed_out-Keeps : (e : Env) (p : Port) → Keeps p (timed_out e p).1
unfolding timed_out
timed_out-Keeps e p = poll_star-Keeps e 50 p

pub write_through-Keeps :
    (bar offset value : ℕ) (p : Port) → Keeps p (write_through bar offset value p)
unfolding write_through
write_through-Keeps bar offset value p = ground arith

pub set_register-Keeps :
    (e : Env) (bar offset value : ℕ) (p : Port) → Keeps p (set_register e bar offset value p).1
unfolding set_register
set_register-Keeps e bar offset value p = ground (
  arith,
  timed_out-Keeps e p,
  write_through-Keeps bar offset value p,
  write_through-Keeps bar offset value (timed_out e p).1,
)

pub get_register_rep-Keeps :
    (e : Env) (bar offset count : ℕ) (p : Port) → Keeps p (get_register_rep e bar offset count p).1
unfolding get_register_rep
get_register_rep-Keeps e bar offset count p = ground arith

pub set_register_rep-Keeps :
    (bar offset : ℕ) (bytes : List ℕ) (count : ℕ) (p : Port)
    → Keeps p (set_register_rep bar offset bytes count p)
unfolding set_register_rep
set_register_rep-Keeps bar offset bytes count p = ground arith
