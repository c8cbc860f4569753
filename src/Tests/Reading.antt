-- ===== src/Tests/Reading.antt =====
-- The theorems on reading, on the links of a ring and on suspending, for the sample port.
use fscc_linux.Prelude.{◌≤◌, ◌≡◌, inr, refl, arith, [], ◌∷◌, true, length}
use fscc_linux.Offsets.{desc_cstop_bit}
use fscc_linux.State.{Port, frame_at, next_desc}
use fscc_linux.Io.Ready.{next_size, user_next_read_size}
use fscc_linux.Io.Frames.{link_descriptors}
use fscc_linux.Io.Frames.Links.{link_descriptors_lem}
use fscc_linux.Io.Read.{io_read}
use fscc_linux.Io.Read.Frame.{valid_data, buffer_requirement, read_frames}
use fscc_linux.Io.Read.Stream.{stream_loop}
use fscc_linux.Io.Read.Bounds.{read_frames-le}
use fscc_linux.Io.Read.Returned.{IsWithin, stream_loop-le, io_read-IsWithin}
use fscc_linux.File.Sleep.{resumed}
use fscc_linux.File.Read.{read}
use fscc_linux.File.ReadSemaphore.{IsFreed, read-IsFreed}
use fscc_linux.Tests.Sample.{reading, frame, port}

-- A frame of three bytes, two of them the status.
abbrev filled : Port
filled = record port { rx_descriptors = frame 0 1000 ∷ frame 0xC0000003 1020 ∷ [] }

filled_size : user_next_read_size filled ≡ (true, 3)
unfolding user_next_read_size next_size next_desc
filled_size = refl

filled_requirement : buffer_requirement filled 3 ≡ 1
unfolding buffer_requirement valid_data
filled_requirement = refl

read_frames-le_example : length (read_frames (reading 0) 1 3 filled).temp_data ≤ 1
unfolding user_next_read_size next_size next_desc
read_frames-le_example =
    read_frames-le (reading 0) 1 filled (inr refl) (omega arith) refl
      (omega (arith, filled_requirement))

stream_loop-le_example :
    length (stream_loop 3 0 2 (record { port = filled; temp_data = [] })).temp_data ≤ 3
stream_loop-le_example =
    stream_loop-le 3 0 2 (record { port = filled; temp_data = [] }) (omega arith) (omega arith)

io_read_example : IsWithin 1 (io_read (reading 0) 1 filled).0
io_read_example =
    io_read-IsWithin (reading 0) 1 filled (inr refl) (λ t n. omega arith) (omega arith)

link_descriptors_example :
    (length (link_descriptors port.tx_descriptors) ≡ 3)
    × (frame_at (link_descriptors port.tx_descriptors) 2 ≡ record (frame desc_cstop_bit 2040) {
      desc = record ((frame desc_cstop_bit 2040).desc) { next_descriptor = 2000 };
    })
link_descriptors_example = link_descriptors_lem port.tx_descriptors 2 (omega arith)

read_example : IsFreed 1 (read (reading 0) true 1 (resumed (λ p. p) ∷ []) filled)
read_example = read-IsFreed (reading 0) true 1 (resumed (λ p. p) ∷ []) filled ((λ p. refl), tt)
