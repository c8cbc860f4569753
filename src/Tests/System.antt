-- ===== src/Tests/System.antt =====
-- The theorems on a new port and on its uses, for the sample port.
use fscc_linux.Prelude.{◌≡◌, refl, arith, [], ◌∷◌, Bool, true, false, ◌==◌}
use fscc_linux.State.{Port}
use fscc_linux.Isr.{oframe_worker, isr, timer_handler}
use fscc_linux.Io.Frames.{initialize}
use fscc_linux.File.Sleep.{resumed, interrupted}
use fscc_linux.File.Read.{read}
use fscc_linux.File.Write.{write, write_held}
use fscc_linux.File.Progress.{is_returned, nonblocking-returned}
use fscc_linux.Port.Life.{port_new}
use fscc_linux.System.Reach.{writes, transmits, here, then_step, Reach-IsSound}
use fscc_linux.System.Sound.{IsSound}
use fscc_linux.System.Start.{IsIdle}
use fscc_linux.System.NewPort.{port_new-IsIdle}
use fscc_linux.System.Wakes.{wakes, transmit-wakes}
use fscc_linux.Tests.Sample.{reading, port, answer}
use fscc_linux.Tests.Rings.{message, port-IsTxRing, port-IsRxRing}
use fscc_linux.Utils.{is_read_only_register, port_offset}
use fscc_linux.Card
use fscc_linux.Port.Access.{
  get_prev, get_frev, get_pdev, get_register, set_register, timed_out, poll_star, write_through,
  set_register_rep, is_dma, using_async,
}
use fscc_linux.Port.Registers.{set_registers, set_from, set_one}
use fscc_linux.Port.Settings.{
  set_append_status, set_append_timestamp, set_ignore_timeout, set_tx_modifiers, set_rx_multiple,
}
use fscc_linux.Port.Clock.{set_clock_bits, fcr_words, clock_words, byte_words, bit_words}
use fscc_linux.Port.Life.{
  new_device, default_settings, new_registers, default_registers, create_groups, new_workers,
  new_memory,
}
use fscc_linux.Io.Frames.{
  initialize_frames, create_rx_frames, create_tx_frames, create_loop, create_frame, create_buffer,
  block_size, link_descriptors, link_from,
}
use fscc_linux.Io.Purge.{
  purge_rx, purge_tx, stop_rx, stop_tx, reset_rx, reset_tx, point_rx, point_tx, start_rx,
  reset_frames,
}
use fscc_linux.Io.Dma.{execute_rres, execute_tres}

abbrev new_port : Bool × Port
new_port = port_new (reading 0) 0 0 port

new_port-counts :
    (new_port.0 ≡ true) × (new_port.1.memory.tx_num ≡ 200) × (new_port.1.memory.rx_num ≡ 200)
unfolding port_new new_device default_settings set_append_status set_append_timestamp
    set_ignore_timeout set_tx_modifiers set_rx_multiple get_prev get_frev get_register
    Card.get_register port_offset answer new_registers set_registers set_from set_one
    is_read_only_register set_register timed_out poll_star write_through default_registers
    create_groups new_workers set_clock_bits get_pdev set_register_rep new_memory initialize
    initialize_frames create_rx_frames create_tx_frames create_loop create_frame create_buffer
    block_size link_descriptors link_from is_dma purge_rx purge_tx stop_rx stop_tx reset_rx reset_tx
    point_rx point_tx start_rx execute_rres execute_tres reset_frames fcr_words clock_words
    byte_words bit_words
new_port-counts = (refl, refl, refl)

port_new-IsIdle_example : IsIdle new_port.1
port_new-IsIdle_example =
    port_new-IsIdle (reading 0) 0 0 port new_port-counts.0 (omega (arith, new_port-counts.1))
      (omega (arith, new_port-counts.2))

Reach-IsSound_example :
    IsSound (oframe_worker (reading 0) (write_held (reading 0) message 6 port).1)
Reach-IsSound_example =
    Reach-IsSound
      (then_step (then_step here (writes message 6 port))
        (transmits (write_held (reading 0) message 6 port).1))
      (record { tx = port-IsTxRing; rx = port-IsRxRing })

async_free :
    (((using_async (reading 0) port).1.read_semaphore == 0) ≡ false)
    × (((using_async (reading 0) port).1.write_semaphore == 0) ≡ false)
unfolding using_async get_register
async_free = (refl, refl)

nonblocking-returned_example :
    (is_returned (read (reading 0) true 16 (resumed (λ p. p) ∷ []) port).0 ≡ true)
    × (is_returned (write (reading 0) true message 16 (resumed (λ p. p) ∷ []) port).0 ≡ true)
    × (is_returned (read (reading 0) true 16 (interrupted ∷ []) port).0 ≡ true)
    × (is_returned (write (reading 0) true message 16 (interrupted ∷ []) port).0 ≡ true)
nonblocking-returned_example =
    nonblocking-returned (reading 0) message 16 (λ p. p) [] port async_free.0 async_free.1

transmit-wakes_example :
    (wakes (oframe_worker (reading 0) port) ≡ wakes port)
    × (wakes (isr (reading 0) ((7 ∷ []) ∷ []) 7 port).1 ≡ wakes port)
    × (wakes (timer_handler port) ≡ wakes port)
transmit-wakes_example = transmit-wakes (reading 0) ((7 ∷ []) ∷ []) 7 port
