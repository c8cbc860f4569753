-- ===== src/File/Sleep.antt =====
-- The calls of main.c that may sleep, down_interruptible and wait_event_interruptible. What the
-- rest of the system does meanwhile is a list of `Wake`s, one for each such call.
use fscc_linux.Prelude.{◌+◌, ◌-◌}
use fscc_linux.Kernel.{Ret}
use fscc_linux.State.{Port}

-- A signal, or the call returns after others have changed the port.
pub data Wake : Type 0 where
  interrupted : Wake
  resumed : (Port → Port) → Wake

pub data Outcome : Type 0 where
  returned : Ret → Outcome
  asleep : Outcome

abbrev pub down_read : Port → Port
down_read p = record p { read_semaphore = p.read_semaphore - 1 }

abbrev pub up_read : Port → Port
up_read p = record p { read_semaphore = p.read_semaphore + 1 }

abbrev pub down_write : Port → Port
down_write p = record p { write_semaphore = p.write_semaphore - 1 }

abbrev pub up_write : Port → Port
up_write p = record p { write_semaphore = p.write_semaphore + 1 }
