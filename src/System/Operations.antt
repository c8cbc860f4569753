-- ===== src/System/Operations.antt =====
-- Both rings, and each operation of the port.
use fscc_linux.Prelude.{ℕ, List, Bool-cases, inl, inr, arith, refl, ◌≡◌, false}
use fscc_linux.Kernel.{
  Env, ok, err, Ret, spin_lock, spin_unlock, settings_lock, truthy, schedule, u32, wake_up,
  input_queue, iframe_tasklet,
}
use fscc_linux.Offsets.{fcr_offset}
use fscc_linux.State.{Port, emit}
use fscc_linux.Port.Access.{is_dma, using_async, timed_out}
use fscc_linux.Port.Access.Keeps.{Keeps, get_register-Keeps, timed_out-Keeps}
use fscc_linux.Port.Registers.{get_registers, set_registers, suspend, resume}
use fscc_linux.Port.Settings.{
  set_append_status, set_append_timestamp, set_tx_modifiers, set_ignore_timeout, set_rx_multiple,
}
use fscc_linux.Io.Ready.{user_read_ready, apply_timestamps}
use fscc_linux.Io.Purge.{purge_rx, purge_tx}
use fscc_linux.Io.Purge.Fresh.{purge_tx_lem}
use fscc_linux.Io.Purge.Emptied.{purge_rx_lem}
use fscc_linux.Io.Write.{user_write_frame}
use fscc_linux.Io.Read.{io_read}
use fscc_linux.Io.Fifo.Receive.{fifo_read_data}
use fscc_linux.File.Write.{write_frame, write_held}
use fscc_linux.File.Ioctl.{
  checked, Command, ioctl, fscc_get_registers, fscc_set_registers, fscc_purge_tx, fscc_purge_rx,
  fscc_enable_append_status, fscc_disable_append_status, fscc_get_append_status,
  fscc_enable_append_timestamp, fscc_disable_append_timestamp, fscc_get_append_timestamp,
  fscc_set_clock_bits, fscc_enable_ignore_timeout, fscc_disable_ignore_timeout,
  fscc_get_ignore_timeout, fscc_set_tx_modifiers, fscc_get_tx_modifiers, fscc_enable_rx_multiple,
  fscc_disable_rx_multiple, fscc_get_rx_multiple, unknown,
}
use fscc_linux.Isr.{iframe_worker, oframe_worker, timer_handler, wake_reader}
use fscc_linux.System.Same.{
  SameTx, SameRx, Keeps-SameTx, Keeps-SameRx, IsTxRing-same, IsRxRing-same,
}
use fscc_linux.System.Receiving.{fifo_read_data-IsRxRing, fifo_read_data-SameTx}
use fscc_linux.System.Streaming.{
  io_read-IsRxRing, io_read-SameTx, apply_timestamps-IsRxRing, apply_timestamps-SameTx,
}
use fscc_linux.System.Transmit.{user_write_frame-IsTxRing, user_write_frame-SameRx}
use fscc_linux.System.Feeding.{transmit_frame-IsTxRing, transmit_frame-SameRx}
use fscc_linux.System.Control.{
  purge_tx-SameRx, purge_rx-SameTx, get_from-Keeps, set_from-Keeps, set_clock_bits-Keeps,
}
use fscc_linux.System.Sound.{IsSound, called, kept, same, untouched}

write_frame-Same :
    (e : Env) (buf : List ℕ) (n : ℕ) (p : Port)
    → SameTx (user_write_frame e buf n p).1 (write_frame e buf n p).1
      × SameRx (user_write_frame e buf n p).1 (write_frame e buf n p).1
unfolding write_frame
write_frame-Same e buf n p = ground arith

write_frame-IsSound :
    (e : Env) (buf : List ℕ) (n : ℕ) (p : Port) → IsSound p → IsSound (write_frame e buf n p).1
write_frame-IsSound e buf n p v = same (write_frame-Same e buf n p) (record {
  tx = user_write_frame-IsTxRing e buf n p v.tx;
  rx = IsRxRing-same (user_write_frame-SameRx e buf n p) v.rx;
})

pub write_held-IsSound :
    (e : Env) (buf : List ℕ) (n : ℕ) (p : Port) → IsSound p → IsSound (write_held e buf n p).1
unfolding write_held
write_held-IsSound e buf n p v =
    let v1 = kept (timed_out-Keeps e p) v in
    ground
      (arith, v1, write_frame-IsSound e buf n p v, write_frame-IsSound e buf n (timed_out e p).1 v1)

purge_tx-IsSound : (e : Env) (p : Port) → IsSound p → IsSound (purge_tx e p).1
purge_tx-IsSound e p v = record {
  tx = (purge_tx_lem e p v.tx).0;
  rx = IsRxRing-same (purge_tx-SameRx e p) v.rx;
}

purge_rx-IsSound : (e : Env) (p : Port) → IsSound p → IsSound (purge_rx e p).1
purge_rx-IsSound e p v = record {
  tx = IsTxRing-same (purge_rx-SameTx e p) v.tx;
  rx = (purge_rx_lem e p v.rx).0;
}

set_append_status-Same :
    (n : ℕ) (p : Port) → SameTx p (set_append_status n p).1 × SameRx p (set_append_status n p).1
unfolding set_append_status
set_append_status-Same n p = ground arith

set_append_timestamp-Same :
    (n : ℕ) (p : Port)
    → SameTx p (set_append_timestamp n p).1 × SameRx p (set_append_timestamp n p).1
unfolding set_append_timestamp
set_append_timestamp-Same n p = ground arith

set_tx_modifiers-Same :
    (n : ℕ) (p : Port) → SameTx p (set_tx_modifiers n p).1 × SameRx p (set_tx_modifiers n p).1
unfolding set_tx_modifiers
set_tx_modifiers-Same n p = ground arith

checked-port : (r : Ret × Port) → (checked r).2 ≡ r.1
checked-port (ok n, p) = refl
checked-port (err x, p) = refl

pub ioctl-IsSound : (e : Env) (c : Command) (p : Port) → IsSound p → IsSound (ioctl e c p).2
unfolding ioctl get_registers set_registers set_ignore_timeout set_rx_multiple
ioctl-IsSound e (fscc_get_registers regs) p v = called (spin_unlock settings_lock) _ (
    kept (get_from-Keeps e 0 regs (emit (spin_lock settings_lock) p))
      (called (spin_lock settings_lock) p v))
ioctl-IsSound e (fscc_set_registers regs) p v = called (spin_unlock settings_lock) _ (
    kept (set_from-Keeps e 0 regs false (emit (spin_lock settings_lock) p))
      (called (spin_lock settings_lock) p v))
ioctl-IsSound e fscc_purge_tx p v = rw (checked-port (purge_tx e p)) (purge_tx-IsSound e p v)
ioctl-IsSound e fscc_purge_rx p v = rw (checked-port (purge_rx e p)) (purge_rx-IsSound e p v)
ioctl-IsSound e fscc_enable_append_status p v =
    rw (checked-port (set_append_status 1 p)) (same (set_append_status-Same 1 p) v)
ioctl-IsSound e fscc_disable_append_status p v = same (set_append_status-Same 0 p) v
ioctl-IsSound e fscc_get_append_status p v = v
ioctl-IsSound e fscc_enable_append_timestamp p v =
    rw (checked-port (set_append_timestamp 1 p)) (same (set_append_timestamp-Same 1 p) v)
ioctl-IsSound e fscc_disable_append_timestamp p v = same (set_append_timestamp-Same 0 p) v
ioctl-IsSound e fscc_get_append_timestamp p v = v
ioctl-IsSound e (fscc_set_clock_bits clock) p v = kept (set_clock_bits-Keeps e clock p) v
ioctl-IsSound e fscc_enable_ignore_timeout p v = untouched refl refl refl refl refl refl refl v
ioctl-IsSound e fscc_disable_ignore_timeout p v = untouched refl refl refl refl refl refl refl v
ioctl-IsSound e fscc_get_ignore_timeout p v = v
ioctl-IsSound e (fscc_set_tx_modifiers arg) p v =
    rw (checked-port (set_tx_modifiers (u32 arg) p)) (same (set_tx_modifiers-Same (u32 arg) p) v)
ioctl-IsSound e fscc_get_tx_modifiers p v = v
ioctl-IsSound e fscc_enable_rx_multiple p v = untouched refl refl refl refl refl refl refl v
ioctl-IsSound e fscc_disable_rx_multiple p v = untouched refl refl refl refl refl refl refl v
ioctl-IsSound e fscc_get_rx_multiple p v = v
ioctl-IsSound e unknown p v = v

pub using_async-Same :
    (e : Env) (p : Port) → SameTx p (using_async e p).1 × SameRx p (using_async e p).1
unfolding using_async
using_async-Same e p =
    let k = get_register-Keeps e 2 fcr_offset p in ground (arith, Keeps-SameTx k, Keeps-SameRx k)

pub suspend-Same : (e : Env) (p : Port) → SameTx p (suspend e p) × SameRx p (suspend e p)
unfolding suspend get_registers
suspend-Same e p =
    let k = get_from-Keeps e 0 p.register_storage p in
    ground (arith, Keeps-SameTx k, Keeps-SameRx k)

pub resume-Keeps : (e : Env) (p : Port) → Keeps p (resume e p)
unfolding resume set_registers
resume-Keeps e p = set_from-Keeps e 0 p.register_storage false p

-- A reader that is woken.
pub wake_reader-IsSound : (p : Port) → IsSound p → IsSound (wake_reader p)
wake_reader-IsSound p v = elim (Bool-cases (user_read_ready p)) [
  | inl ready ↦ rw ready (called (wake_up input_queue) p v)
  | inr not_ready ↦ rw not_ready v
]

pub apply_timestamps-IsSound : (e : Env) (p : Port) → IsSound p → IsSound (apply_timestamps e p)
apply_timestamps-IsSound e p v = record {
  tx = IsTxRing-same (apply_timestamps-SameTx e p) v.tx;
  rx = apply_timestamps-IsRxRing e p v.rx;
}

pub iframe_worker-IsSound : (e : Env) (p : Port) → IsSound p → IsSound (iframe_worker e p)
unfolding iframe_worker
iframe_worker-IsSound e p v = elim (Bool-cases (truthy (is_dma p))) [
  | inl dma ↦ rw dma v
  | inr fifo ↦ rw fifo (
      wake_reader-IsSound (fifo_read_data e p).1 (record {
        tx = IsTxRing-same (fifo_read_data-SameTx e p) v.tx;
        rx = fifo_read_data-IsRxRing e p v.rx;
      }))
]

pub oframe_worker-IsSound : (e : Env) (p : Port) → IsSound p → IsSound (oframe_worker e p)
unfolding oframe_worker
oframe_worker-IsSound e p v = elim (Bool-cases (truthy (is_dma p))) [
  | inl dma ↦ rw dma v
  | inr fifo ↦ rw fifo (record {
    tx = transmit_frame-IsTxRing e p v.tx;
    rx = IsRxRing-same (transmit_frame-SameRx e p) v.rx;
  })
]

pub timer_handler-IsSound : (p : Port) → IsSound p → IsSound (timer_handler p)
unfolding timer_handler
timer_handler-IsSound p v = elim (Bool-cases (truthy (is_dma p))) [
  | inl dma ↦ rw dma (wake_reader-IsSound p v)
  | inr fifo ↦ rw fifo (called (schedule iframe_tasklet) p v)
]

pub io_read-IsSound : (e : Env) (n : ℕ) (p : Port) → IsSound p → IsSound (io_read e n p).1
io_read-IsSound e n p v = record {
  tx = IsTxRing-same (io_read-SameTx e n p) v.tx;
  rx = io_read-IsRxRing e n p v.rx;
}
