-- ===== src/Isr.antt =====
-- isr.c: the interrupt handler, the tasklets that it schedules and the timer, without DEBUG.
use fscc_linux.Prelude.{ℕ, List, [], ◌∷◌, Bool, false, ◌||◌, if◌then◌else◌, ◌==◌, bit_or, ◌≡◌, refl}
use fscc_linux.Kernel.{
  Env, wake_up, schedule, iframe_tasklet, send_oframe_tasklet, timestamp_tasklet, input_queue,
  status_queue, del_timer, mod_timer, truthy,
}
use fscc_linux.Offsets.{isr_offset, rfe, rft, rfs, rfo, rdo, tft, tdu, alls, dr_hi, dr_fe, dr_stop}
use fscc_linux.State.{Port, emit, has}
use fscc_linux.Port.Access.{get_register, is_dma}
use fscc_linux.Io.Ready.{apply_timestamps, user_read_ready}
use fscc_linux.Io.Fifo.Send.{transmit_frame}
use fscc_linux.Io.Fifo.Receive.{fifo_read_data}

pub data IrqReturn : Type 0 where
  irq_none irq_handled : IrqReturn

-- fscc_port_reset_timer: a quarter of a second.
unfoldable pub reset_timer : Port → Port
reset_timer p = emit (mod_timer 250) p

unfoldable pub port_in : List ℕ → ℕ → Bool
port_in [] port = false
port_in (current_port ∷ ports) port = port == current_port || port_in ports port

-- port_exists of utils.c: `cards` lists the ports of each card, by their addresses.
unfoldable pub port_exists : List (List ℕ) → ℕ → Bool
port_exists [] port = false
port_exists (ports ∷ cards) port = port_in ports port || port_exists cards port

abbrev when : Bool → (Port → Port) → Port → Port
when b f p = if b then f p else p

-- The bits that call for each tasklet.
abbrev pub dma_bits : ℕ
dma_bits = 0x00005407

abbrev pub receive_bits : ℕ
receive_bits = 0x0000001F

abbrev pub transmit_bits : ℕ
transmit_bits = 0x00070000

unfoldable pub dispatch : ℕ → Port → Port
dispatch isr_value p =
    if truthy (is_dma p)
    then when (has isr_value dma_bits) (emit (schedule timestamp_tasklet)) p
    else when (has isr_value transmit_bits) (emit (schedule send_oframe_tasklet))
        (when (has isr_value receive_bits) (emit (schedule iframe_tasklet)) p)

-- `port` is the address of `p`, which the handler is called with.
unfoldable pub isr : Env → List (List ℕ) → ℕ → Port → IrqReturn × Port
isr e cards port p =
    if port_exists cards port
    then (let (isr_value, p1) = get_register e 0 isr_offset p in
        if isr_value == 0
        then (irq_none, p1)
        else (let p2 = if e.timer_pending p1.trace then emit del_timer p1 else p1 in
            let p3 = record p2 { last_isr_value = bit_or p2.last_isr_value isr_value } in
            (irq_handled, reset_timer (emit (wake_up status_queue) (dispatch isr_value p3)))))
    else (irq_none, p)

abbrev pub wake_reader : Port → Port
wake_reader p = if user_read_ready p then emit (wake_up input_queue) p else p

unfoldable pub timestamp_worker : Env → Port → Port
timestamp_worker e p = wake_reader (apply_timestamps e p)

unfoldable pub iframe_worker : Env → Port → Port
iframe_worker e p = if truthy (is_dma p) then p else wake_reader (fifo_read_data e p).1

unfoldable pub oframe_worker : Env → Port → Port
oframe_worker e p = if truthy (is_dma p) then p else (transmit_frame e p).1

unfoldable pub timer_handler : Port → Port
timer_handler p = if truthy (is_dma p) then wake_reader p else emit (schedule iframe_tasklet) p

-- debug.c: debug_interrupt_display, the tasklet of a DEBUG build, without what it logs.
unfoldable pub interrupt_display : List (List ℕ) → ℕ → Port → Port
interrupt_display cards port p =
    if port_exists cards port then record p { last_isr_value = 0 } else p

-- The masks above are the unions that the source writes.
masks_lem :
    (dma_bits ≡ bit_or (bit_or (bit_or (bit_or (bit_or dr_hi dr_fe) rft) rfs) dr_stop) rfe)
    × (receive_bits ≡ bit_or (bit_or (bit_or (bit_or rfe rft) rfs) rfo) rdo)
    × (transmit_bits ≡ bit_or (bit_or tft tdu) alls)
masks_lem = (refl, refl, refl)
