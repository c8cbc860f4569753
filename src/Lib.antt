-- ===== src/Lib.antt =====
-- fscc-linux: the Linux driver of Commtech's FSCC cards.
--
-- A card has two ports. A port (`struct fscc_port`, src/port.h) keeps two rings of frames in the
-- host's memory. User programs fill the transmit ring by fscc_write and empty the receive ring by
-- fscc_read; the card's FIFOs are fed from one and drained into the other by tasklets that the
-- interrupt handler schedules, or the card's DMA engine walks the rings by itself.
-- Two bits of a descriptor's control word say whose it is: CSTOP in the transmit ring, CSTOP and FE
-- in the receive ring.
--
-- The files, and the code they model:
--   Kernel       what the driver asks of the kernel and of the card: `Event`s, and `Env`, their answers
--   Offsets      the constants of src/port.h, src/card.h, src/io.h and src/fscc.h
--   State        struct fscc_port, struct io_frame, struct fscc_descriptor, struct fscc_memory
--   Utils        src/utils.c: names, offsets of a port on its card, device ids
--   Card         src/card.c: the register functions; Card.Life: cards made and deleted
--   Port.Access  src/port.c: registers of a port, the wait for a command, mode tests
--   Port.Settings, Port.Registers, Port.Clock, Port.Life   the rest of src/port.c
--   Io.Dma, Io.Frames, Io.Purge, Io.Ready, Io.Fifo, Io.Write, Io.Read   src/io.c, by its parts
--   Isr          src/isr.c; port_exists of src/utils.c; debug_interrupt_display of src/debug.c
--   Debug        src/debug.c: the interrupt counters
--   File         src/main.c: fscc_read, fscc_write, fscc_poll and fscc_ioctl
--   Sysfs        src/sysfs.c: the groups of attributes with their show and store functions
--   Driver       src/main.c: the table of devices, the module's entry and exit, the PCI callbacks
--   System       a port as a state machine: `Step` is any one thing that works on it, the card's
--                DMA engine included, `Reach` a sequence of steps; what each step does to the two
--                rings, the state that
--                fscc_port_new starts from, and fscc_read and fscc_write as sequences of steps
--   ClockBits    lib/raw/calculate-clock-bits.c: ClockBits.Double, the arithmetic of its doubles; Search,
--                the nested loops of GetICS30703Data; Tables, its encoding; Calculate, the whole;
--                Decode and Port.Clock.Generator, what the clock generator reads and loads
--   Ring         indices that go round, and what a ring of frames holds
--   Prelude      shared notation and lemmas
--   Tests        the theorems at concrete inputs
-- A function fscc_x_y of the source is `y` of the module for its part; a loop of the source is a
-- function of its own, and where a body is long, so are its pieces.
--
-- How the code is read:
--   - A function takes a port and returns one. Each call of the kernel or the card is put on the
--     port's `trace`, and its answer comes from `Env`, a parameter that may depend on all calls
--     before. Port pointers are never NULL.
--   - Numbers are natural numbers with the wrap of their C type written out; an `int` and an
--     `__s64` are kept as their 32-bit and 64-bit patterns.
--   - The build is little-endian, 64 bits, on a kernel from 4.0 on, without DEBUG.
--   - A semaphore is its count. A call that sleeps takes, for each wait, a signal or what the others
--     do to the port meanwhile; when that list ends the call is still asleep.
--   - Two things that work on a port are taken to do so one after the other, each under its lock,
--     as steps; between two waits fscc_read and fscc_write are one step.
--   - The DMA engine may change any descriptor and its buffer at any step; a receive descriptor it
--     leaves within the size of its buffer.
--   - The sizes of a read are below 2^32 bytes: the source counts the bytes of one read in an
--     `unsigned`, and the model by the length of what is gathered.
--   - The memory of a new port holds anything before fscc_port_new writes it.
--   - simple_strtoul is a parameter, and a sysfs text is its format with its argument.
--   - A memory pool gives zeroed blocks; a read of an array out of its range gives a fixed value,
--     which the theorems do not use where their ring is well formed.
--   - A `double` is binary64, rounded to the nearest; no value of the clock calculation is infinite
--     or NaN, and `unsigned long` has 64 bits.
--   - The copies of an ioctl's argument are complete.
-- Loops over a ring recur on the rounds that the source counts, so on RxNum or TxNum, and the wait
-- for a command on its fifty reads. The loop without a count in
-- debug_interrupt_tracker_get_count has fuel 32, and a value of 32 bits is 0 after 32 shifts.
-- The loop over the output divider in GetICS30703Data has as many rounds as its first divider, and
-- every round makes the divider smaller.
--
-- Not modelled: fscc_open and the poll semaphore, which hold nothing of the driver's state; the
-- names, numbers and list heads of the kernel's objects and the addresses of the BARs; fscc_probe,
-- which is not compiled; messages to the log; and the rest of lib, which
-- hands its arguments to the driver.
pub mod Prelude
pub mod Kernel
pub mod Offsets
pub mod State
pub mod Utils
pub mod Card
pub mod Port
pub mod Io
pub mod Isr
pub mod Debug
pub mod File
pub mod Ring
pub mod Sysfs
pub mod Driver
pub mod System
pub mod ClockBits
mod Tests
