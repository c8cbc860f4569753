-- ===== src/System/Reach.antt =====
-- The states that a port passes through while it is used.
use Prim.Native.String.{String}
use fscc_linux.Prelude.{ℕ, List, refl, set, length-set, ◌∙◌, Option-cases, inl, inr}
use fscc_linux.Utils.{str_to_register_offset}
use fscc_linux.Sysfs.{Strtoul, register_store}
use fscc_linux.Sysfs.Registers.{register_store-known, register_store-unknown}
use fscc_linux.Io.Ready.RxRing.{IsRxFrame}
use fscc_linux.Port.Access.Keeps.{set_register-Keeps}
use fscc_linux.Kernel.{Env, u32}
use fscc_linux.State.{IoFrame, Port}
use fscc_linux.Port.Access.{using_async}
use fscc_linux.Port.Registers.{suspend, resume}
use fscc_linux.Io.Ready.{apply_timestamps}
use fscc_linux.Io.Read.{io_read}
use fscc_linux.File.Sleep.{down_read, up_read, down_write, up_write}
use fscc_linux.File.Write.{write_held}
use fscc_linux.File.Ioctl.{Command, ioctl}
use fscc_linux.Isr.{isr, timestamp_worker, iframe_worker, oframe_worker, timer_handler}
use fscc_linux.System.Sound.{IsSound-same, IsSound, untouched, same, kept}
use fscc_linux.System.Frames.{IsUpdated-IsRxRing}
use fscc_linux.System.Interrupt.{isr-SameRings}
use fscc_linux.System.Operations.{
  write_held-IsSound, ioctl-IsSound, using_async-Same, suspend-Same, resume-Keeps,
  wake_reader-IsSound, apply_timestamps-IsSound, iframe_worker-IsSound, oframe_worker-IsSound,
  timer_handler-IsSound, io_read-IsSound,
}

-- What changes a port, each under its own lock or semaphore: the parts of fscc_read and fscc_write
-- between two waits, fscc_ioctl, suspending and resuming, what the interrupt starts, a write to the
-- sysfs attribute of a register, and the card's DMA engine, which may change any descriptor of
-- either ring and its buffer, a receive descriptor within the size of its buffer.
pub data Step (e : Env) : Port → Port → Type 0 where
  takes_read : (p : Port) → Step e p (down_read p)
  reads : (count : ℕ) (p : Port) → Step e p (up_read (io_read e count p).1)
  gives_up_reading : (p : Port) → Step e p (up_read p)
  takes_write : (p : Port) → Step e p (down_write p)
  writes : (buf : List ℕ) (count : ℕ) (p : Port) → Step e p (write_held e buf count p).1
  gives_up_writing : (p : Port) → Step e p (up_write p)
  refreshes : (p : Port) → Step e p (using_async e p).1
  controls : (c : Command) (p : Port) → Step e p (ioctl e c p).2
  suspends : (p : Port) → Step e p (suspend e p)
  resumes : (p : Port) → Step e p (resume e p)
  interrupts : (cards : List (List ℕ)) (port : ℕ) (p : Port) → Step e p (isr e cards port p).1
  stamps : (p : Port) → Step e p (timestamp_worker e p)
  receives : (p : Port) → Step e p (iframe_worker e p)
  transmits : (p : Port) → Step e p (oframe_worker e p)
  times_out : (p : Port) → Step e p (timer_handler p)
  stores_register :
      (name : String) (bar : ℕ) (simple_strtoul : Strtoul) (buf : String) (count : ℕ) (p : Port)
      → Step e p (register_store name bar simple_strtoul e buf count p).1
  engine_receives :
      (i : ℕ) (f : IoFrame) (p : Port)
      → IsRxFrame p.memory.rx_size f
      → Step e p (record p { rx_descriptors = set p.rx_descriptors i f })
  engine_sends :
      (i : ℕ) (f : IoFrame) (p : Port)
      → Step e p (record p { tx_descriptors = set p.tx_descriptors i f })

pub data Reach (e : Env) (p : Port) : Port → Type 0 where
  here : Reach e p p
  then_step : {q r : Port} → Reach e p q → Step e q r → Reach e p r

register_store-IsSound :
    (name : String) (bar : ℕ) (simple_strtoul : Strtoul) (e : Env) (buf : String) (count : ℕ)
    (p : Port)
    → IsSound p
    → IsSound (register_store name bar simple_strtoul e buf count p).1
register_store-IsSound name bar strtoul e buf count p v =
    elim (Option-cases (str_to_register_offset name)) [
      | inl unknown ↦ rw (register_store-unknown name bar strtoul e buf count p unknown) v
      | inr (offset, known) ↦
          rw (register_store-known name bar offset strtoul e buf count p known)
            (kept (set_register-Keeps e bar offset (u32 (strtoul buf 16)) p) v)
    ]

engine_receives-IsSound :
    (i : ℕ) (f : IoFrame) (p : Port)
    → IsRxFrame p.memory.rx_size f
    → IsSound p
    → IsSound (record p { rx_descriptors = set p.rx_descriptors i f })
engine_receives-IsSound i f p frame v = record {
  tx = record {
    array = v.tx.array;
    few = v.tx.few;
    bounded = v.tx.bounded;
    user_in = v.tx.user_in;
    fifo_in = v.tx.fifo_in;
  };
  rx =
      IsUpdated-IsRxRing
        (record { memory_same = refl; user_same = refl; fifo_same = refl; updated = refl }) frame
        v.rx;
}

engine_sends-IsSound :
    (i : ℕ) (f : IoFrame) (p : Port)
    → IsSound p
    → IsSound (record p { tx_descriptors = set p.tx_descriptors i f })
engine_sends-IsSound i f p v = record {
  tx = record {
    array = length-set p.tx_descriptors i f ∙ v.tx.array;
    few = v.tx.few;
    bounded = v.tx.bounded;
    user_in = v.tx.user_in;
    fifo_in = v.tx.fifo_in;
  };
  rx = record {
    array = v.rx.array;
    few = v.rx.few;
    some_size = v.rx.some_size;
    small = v.rx.small;
    user_in = v.rx.user_in;
    fifo_in = v.rx.fifo_in;
    frames = v.rx.frames;
  };
}

-- Every step of the port's users, of its interrupt handler, of the workers, of the timer and of the
-- DMA engine keeps both rings well formed, whatever the card and the kernel answer.
pub Step-IsSound : {e : Env} {p q : Port} → Step e p q → IsSound p → IsSound q
unfolding timestamp_worker
Step-IsSound (takes_read p) v = untouched refl refl refl refl refl refl refl v
Step-IsSound {e} (reads n p) v =
    untouched refl refl refl refl refl refl refl (io_read-IsSound e n p v)
Step-IsSound (gives_up_reading p) v = untouched refl refl refl refl refl refl refl v
Step-IsSound (takes_write p) v = untouched refl refl refl refl refl refl refl v
Step-IsSound {e} (writes buf n p) v = write_held-IsSound e buf n p v
Step-IsSound (gives_up_writing p) v = untouched refl refl refl refl refl refl refl v
Step-IsSound {e} (refreshes p) v = same (using_async-Same e p) v
Step-IsSound {e} (controls c p) v = ioctl-IsSound e c p v
Step-IsSound {e} (suspends p) v = same (suspend-Same e p) v
Step-IsSound {e} (resumes p) v = kept (resume-Keeps e p) v
Step-IsSound {e} (interrupts cards port p) v = IsSound-same (isr-SameRings e cards port p) v
Step-IsSound {e} (stamps p) v =
    wake_reader-IsSound (apply_timestamps e p) (apply_timestamps-IsSound e p v)
Step-IsSound {e} (receives p) v = iframe_worker-IsSound e p v
Step-IsSound {e} (transmits p) v = oframe_worker-IsSound e p v
Step-IsSound (times_out p) v = timer_handler-IsSound p v
Step-IsSound {e} (stores_register name bar strtoul buf count p) v =
    register_store-IsSound name bar strtoul e buf count p v
Step-IsSound (engine_receives i f p frame) v = engine_receives-IsSound i f p frame v
Step-IsSound (engine_sends i f p) v = engine_sends-IsSound i f p v

-- From a port with both rings well formed, every state that any sequence of steps leads to, of the
-- port's users, its interrupt handler, the workers, the timer and the DMA engine, has both rings
-- well formed, whatever the card and the kernel answer, if the engine leaves a receive descriptor
-- within the size of its buffer.
pub Reach-IsSound : {e : Env} {p q : Port} → Reach e p q → IsSound p → IsSound q
Reach-IsSound here v = v
Reach-IsSound (then_step r s) v = Step-IsSound s (Reach-IsSound r v)
