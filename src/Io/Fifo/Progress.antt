-- ===== src/Io/Fifo/Progress.antt =====
-- io.c: when fscc_io_transmit_frame sends something.
use fscc_linux.Prelude.{
  ℕ, zero, suc, ◌≤◌, ◌<◌, ◌≡◌, refl, arith, false, Bool-cases, inl, inr, ltb, All,
}
use fscc_linux.Kernel.{Env}
use fscc_linux.State.{IoFrame, Port, frame_at, has}
use fscc_linux.Offsets.{desc_cstop_bit}
use fscc_linux.Port.Access.Keeps.{Keeps}
use fscc_linux.Io.Dma.{get_tfcnt, execute_transmit}
use fscc_linux.Io.Ready.Space.{IsTxRing}
use fscc_linux.Io.Fifo.Send.{
  tx_fifo_size, size_in_fifo, Sending, stops, send_frame, send_loop, fifo_write_data,
  transmit_frame,
}
use fscc_linux.Io.Fifo.Chunks.{IsFilled}
use fscc_linux.Io.Fifo.Sent.{send_loop-sends}
use fscc_linux.Io.Fifo.Passed.{
  IsPassed, after_counts, room, counts-Keeps, begun, fifo_write_data-loops,
}

send_frame-written : (f : IoFrame) (s : Sending) → (send_frame f s).data_written ≡ 1
unfolding send_frame
send_frame-written f s = refl

-- What is written stays written.
send_loop-written :
    (tfcnt left : ℕ) (s : Sending) → s.data_written ≡ 1 → (send_loop tfcnt left s).data_written ≡ 1
unfolding send_loop
send_loop-written tfcnt zero s h = h
send_loop-written tfcnt (suc left) s h =
    let f = frame_at s.port.tx_descriptors s.port.fifo_tx_desc in
    elim (Bool-cases (stops tfcnt f s)) [
      | inl stop ↦ rw stop h
      | inr more ↦ rw more (send_loop-written tfcnt left (send_frame f s) (send_frame-written f s))
    ]

send_loop-first :
    (tfcnt left : ℕ) (s : Sending)
    → 0 < left
    → stops tfcnt (frame_at s.port.tx_descriptors s.port.fifo_tx_desc) s ≡ false
    → (send_loop tfcnt left s).data_written ≡ 1
unfolding send_loop
send_loop-first tfcnt zero s low more = absurd (omega arith)
send_loop-first tfcnt (suc left) s low more =
    let f = frame_at s.port.tx_descriptors s.port.fifo_tx_desc in
    rw more (send_loop-written tfcnt left (send_frame f s) (send_frame-written f s))

first_goes :
    (tfcnt : ℕ) (f : IoFrame) (s : Sending)
    → tfcnt ≤ 254
    → s.frame_size ≡ 0
    → has f.desc.control desc_cstop_bit ≡ false
    → size_in_fifo f.desc.data_count ≤ s.fifo_space
    → stops tfcnt f s ≡ false
unfolding stops
first_goes tfcnt f s few none_yet ours fits = ground arith

-- The card's next descriptor goes: the FIFO takes another frame, and the bytes fit its room.
pub record IsTaken (e : Env) (p : Port) : Type 0 where
  pub ours : has (frame_at p.tx_descriptors p.fifo_tx_desc).desc.control desc_cstop_bit ≡ false
  pub few : (get_tfcnt e p).0 ≤ 254
  pub small : room e p ≤ tx_fifo_size
  pub fits : size_in_fifo (frame_at p.tx_descriptors p.fifo_tx_desc).desc.data_count ≤ room e p

module _ (e : Env) (p : Port) (v : IsTxRing p) (taken : IsTaken e p) where
  kept : Keeps p (after_counts e p)
  kept = counts-Keeps e p

  next : IoFrame
  next = frame_at p.tx_descriptors p.fifo_tx_desc

  below : ltb 254 (get_tfcnt e p).0 ≡ false
  below = ground (arith, taken.few)

  within : ltb tx_fifo_size (room e p) ≡ false
  within = ground (arith, taken.small)

  same_next :
      frame_at (after_counts e p).tx_descriptors (after_counts e p).fifo_tx_desc
      ≡ frame_at p.tx_descriptors p.fifo_tx_desc
  same_next = rw (kept.same_tx_descriptors, kept.same_fifo_tx_desc) refl

  begun_goes :
      stops
        (get_tfcnt e p).0
        (frame_at (begun e p).port.tx_descriptors (begun e p).port.fifo_tx_desc)
        (begun e p)
      ≡ false
  begun_goes = rw same_next (
      first_goes (get_tfcnt e p).0 (frame_at p.tx_descriptors p.fifo_tx_desc) (begun e p) taken.few
        refl taken.ours taken.fits)

  ring_low : 0 < (after_counts e p).memory.tx_num
  ring_low = rw kept.same_memory (omega (arith, v.fifo_in))

  fifo_write_data-goes : (fifo_write_data e p).0 ≡ 1
  unfolding fifo_write_data
  fifo_write_data-goes =
      rw (below, within)
        (send_loop-first (get_tfcnt e p).0 (after_counts e p).memory.tx_num (begun e p) ring_low
          begun_goes)

  fifo_write_data-sends :
      All IsFilled p.tx_descriptors → (k : IsPassed p (fifo_write_data e p).1) × (0 < k.n)
  fifo_write_data-sends filled =
      let (sent, some_sent) =
        send_loop-sends (get_tfcnt e p).0 (after_counts e p).memory.tx_num (begun e p) ring_low
          (rw kept.same_memory v.few) (omega arith)
          (rw (kept.same_memory, kept.same_fifo_tx_desc) v.fifo_in)
          (rw kept.same_tx_descriptors filled) begun_goes in
      let (k, count) = fifo_write_data-loops e p below within sent in (k, rw count some_sent)

-- When the next descriptor is the card's, its bytes fit the room of the FIFO, which is within the
-- FIFO's size, and the FIFO takes another frame, the data of one descriptor or more, of this one on,
-- is put into the FIFO, the FIFO's index moves behind them, and fscc_io_execute_transmit is called,
-- which may still time out. The ring is well formed, and no descriptor counts more than its buffer
-- holds.
pub transmit_frame-sends :
    (e : Env) (p : Port)
    → IsTxRing p
    → All IsFilled p.tx_descriptors
    → IsTaken e p
    → ((k : IsPassed p (fifo_write_data e p).1) × (0 < k.n))
      × (transmit_frame e p ≡ (1, execute_transmit e false (fifo_write_data e p).1))
unfolding transmit_frame
transmit_frame-sends e p v filled taken =
    (fifo_write_data-sends e p v taken filled, rw (fifo_write_data-goes e p v taken) refl)
