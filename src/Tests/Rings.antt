-- ===== src/Tests/Rings.antt =====
-- The theorems on the two rings and on fscc_write, for the sample port.
use fscc_linux.Prelude.{
  ℕ, zero, suc, ◌+◌, ◌-◌, ◌*◌, ◌%◌, ◌≤◌, ◌<◌, ◌≡◌, refl, arith, List, [], ◌∷◌, true, false, All,
}
use fscc_linux.Kernel.{ok}
use fscc_linux.Offsets.{desc_cstop_bit}
use fscc_linux.State.{IoFrame, Port, frame_at, control_at, has, next_desc}
use fscc_linux.Io.Ready.{tx_space, user_get_tx_space, user_next_read_size}
use fscc_linux.Io.Ready.Space.{IsTxRing, user_get_tx_space-free}
use fscc_linux.Io.Ready.RxRing.{IsRxFrame, IsRxRing}
use fscc_linux.Io.Purge.{purge_rx, purge_tx}
use fscc_linux.Io.Purge.Fresh.{purge_tx_lem}
use fscc_linux.Io.Purge.Emptied.{purge_rx_lem}
use fscc_linux.Card
use fscc_linux.Utils.{port_offset}
use fscc_linux.Port.Access.{get_register, set_register, set_register_rep, write_through}
use fscc_linux.Io.Dma.{get_tfcnt, get_txcnt, execute_transmit}
use fscc_linux.Io.Fifo.Send.{
  transmit_frame, fifo_write_data, send_loop, send_frame, stops, size_in_fifo, fifo_room,
}
use fscc_linux.Io.Fifo.Chunks.{IsFilled}
use fscc_linux.Io.Fifo.Passed.{room, IsPassed, fifo_write_data-IsPassed}
use fscc_linux.Io.Fifo.Progress.{transmit_frame-sends}
use fscc_linux.Io.Fifo.Room.{fifo_bytes, put_at, fifo_write_data-fits}
use fscc_linux.Io.Write.{user_write_frame}
use fscc_linux.Io.Write.Frame.{IsWritten, user_write_frame_lem}
use fscc_linux.File.Sleep.{resumed}
use fscc_linux.File.Write.{write}
use fscc_linux.File.Semaphores.{Balanced, write-Balanced}
use fscc_linux.Tests.Sample.{reading, port, frame}

abbrev pub message : List ℕ
message = 10 ∷ 20 ∷ 30 ∷ 40 ∷ 50 ∷ 60 ∷ []

pub port-IsTxRing : IsTxRing port
port-IsTxRing = record {
  array = refl;
  few = omega arith;
  bounded = omega arith;
  user_in = omega arith;
  fifo_in = omega arith;
}

port-frames : (i : ℕ) → i < 2 → IsRxFrame 4 (frame_at port.rx_descriptors i)
port-frames zero h = record { whole = refl; counted = omega arith; room = λ z. omega arith }
port-frames (suc zero) h = record { whole = refl; counted = omega arith; room = λ z. omega arith }
port-frames (suc (suc i)) h = absurd (omega arith)

pub port-IsRxRing : IsRxRing port
port-IsRxRing = record {
  array = refl;
  few = omega arith;
  some_size = omega arith;
  small = omega arith;
  user_in = omega arith;
  fifo_in = omega arith;
  frames = port-frames;
}

port-space : user_get_tx_space port ≡ 12
unfolding user_get_tx_space tx_space next_desc
port-space = refl

user_write_frame_example :
    ((user_write_frame (reading 0) message 6 port).0 ≡ ok 0)
    × IsWritten message port (user_write_frame (reading 0) message 6 port).1
user_write_frame_example =
    user_write_frame_lem (reading 0) message port port-IsTxRing (omega arith) (omega arith)
      (omega (arith, port-space)) (record { allocates = refl; copies = refl })

write_example : Balanced 1 (write (reading 0x00040000) true message 6 (resumed (λ p. p) ∷ []) port)
write_example =
    write-Balanced (reading 0x00040000) true message 6 (resumed (λ p. p) ∷ []) port
      ((λ p. refl), tt)

user_get_tx_space-free_example :
    has (control_at port.tx_descriptors ((2 + 1) % 3)) desc_cstop_bit ≡ true
user_get_tx_space-free_example =
    user_get_tx_space-free port 1 port-IsTxRing (omega arith) (omega (arith, port-space))

purge_tx_example :
    IsTxRing (purge_tx (reading 0) port).1
    × (user_get_tx_space (purge_tx (reading 0) port).1 ≡ 3 * 4)
purge_tx_example = purge_tx_lem (reading 0) port port-IsTxRing

purge_rx_example :
    IsRxRing (purge_rx (reading 0) port).1
    × (user_next_read_size (purge_rx (reading 0) port).1 ≡ (false, 0))
purge_rx_example = purge_rx_lem (reading 0) port port-IsRxRing

-- A frame of six bytes, in two descriptors.
abbrev filled : ℕ → ℕ → IoFrame
filled control count = record (frame control 2000) {
  desc = record { control = control; data_address = 2000; data_count = count; next_descriptor = 0 };
}

abbrev sending : Port
sending = record port {
  tx_descriptors = filled 0x80000006 4 ∷ filled 0 2 ∷ frame desc_cstop_bit 2040 ∷ [];
  fifo_tx_desc = 0;
}

sending-IsTxRing : IsTxRing sending
sending-IsTxRing = record {
  array = refl;
  few = omega arith;
  bounded = omega arith;
  user_in = omega arith;
  fifo_in = omega arith;
}

four_zeros : All (λ b. b < 256) (0 ∷ 0 ∷ 0 ∷ 0 ∷ [])
four_zeros = (omega arith, (omega arith, (omega arith, (omega arith, tt))))

sending-IsFilled : All IsFilled sending.tx_descriptors
sending-IsFilled = (
  record { within = omega arith; bytes = four_zeros },
  (
    record { within = omega arith; bytes = four_zeros },
    (record { within = omega arith; bytes = four_zeros }, tt),
  ),
)

fifo_write_data-IsPassed_example : IsPassed sending (fifo_write_data (reading 0) sending).1
fifo_write_data-IsPassed_example =
    fifo_write_data-IsPassed (reading 0) sending sending-IsTxRing sending-IsFilled

-- Two descriptors take eight bytes of the FIFO.
sending_bytes : fifo_bytes (fifo_write_data (reading 0) sending).1 ≡ 8
unfolding fifo_write_data send_loop send_frame stops size_in_fifo fifo_room get_tfcnt get_txcnt
    get_register set_register set_register_rep write_through put_at next_desc Card.get_register
    Card.set_register Card.set_register_rep port_offset
sending_bytes = refl

fifo_write_data-fits_example :
    fifo_bytes (fifo_write_data (reading 0) sending).1
    ≤ fifo_bytes sending + (4095 - (get_txcnt (reading 0) (get_tfcnt (reading 0) sending).1).0)
fifo_write_data-fits_example =
    fifo_write_data-fits (reading 0) sending (omega arith, (omega arith, (omega arith, tt)))

sending_few : (get_tfcnt (reading 0) sending).0 ≤ 254
unfolding get_tfcnt get_register Card.get_register port_offset
sending_few = omega arith

sending_room :
    (room (reading 0) sending ≤ 4096)
    × (size_in_fifo (frame_at sending.tx_descriptors 0).desc.data_count ≤ room (reading 0) sending)
unfolding get_tfcnt get_txcnt get_register Card.get_register port_offset fifo_room size_in_fifo
sending_room = (omega arith, omega arith)

transmit_frame-sends_example :
    ((k : IsPassed sending (fifo_write_data (reading 0) sending).1) × (0 < k.n))
    × (transmit_frame (reading 0) sending
        ≡ (1, execute_transmit (reading 0) false (fifo_write_data (reading 0) sending).1))
transmit_frame-sends_example =
    transmit_frame-sends (reading 0) sending sending-IsTxRing sending-IsFilled
      (record { ours = refl; few = sending_few; small = sending_room.0; fits = sending_room.1 })
