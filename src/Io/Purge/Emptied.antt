-- ===== src/Io/Purge/Emptied.antt =====
-- io.c: the receive ring after fscc_io_purge_rx.
use fscc_linux.Prelude.{ℕ, zero, suc, ◌<◌, ◌≡◌, refl, sym, ap, ◌∙◌, arith, List, false, length}
use fscc_linux.Kernel.{Env}
use fscc_linux.Offsets.{desc_cstop_bit, desc_fe_bit, desc_hi_bit}
use fscc_linux.State.{IoFrame, Port, frame_at, control_at, has}
use fscc_linux.Io.Ready.{next_size, user_next_read_size}
use fscc_linux.Io.Ready.RxRing.{IsRxRing}
use fscc_linux.Io.Purge.{reset_frame, reset_frames, purge_rx}
use fscc_linux.Io.Purge.Fresh.{
  IsResetRx, IsRxArray, purge_rx-IsReset, reset_frames-at, reset_frames-length,
}

-- At a descriptor that is not finished the loop of fscc_user_next_read_size stops.
next_size-stops :
    (frames : List IoFrame) (num cur bytes left : ℕ)
    → has (control_at frames cur) desc_fe_bit ≡ false
    → has (control_at frames cur) desc_cstop_bit ≡ false
    → next_size frames num cur bytes left ≡ (false, bytes)
unfolding next_size
next_size-stops frames num cur bytes zero h k = refl
next_size-stops frames num cur bytes (suc left) h k = rw (h, k)

pub purged_rx :
    (e : Env) (p : Port)
    → IsRxArray p
    → IsRxRing (purge_rx e p).1 × (user_next_read_size (purge_rx e p).1 ≡ (false, 0))
unfolding user_next_read_size
purged_rx e p v = (
  ring (purge_rx e p).1 (purge_rx-IsReset e p),
  nothing_left (purge_rx e p).1 (purge_rx-IsReset e p),
)
  where
    fresh : List IoFrame
    fresh = reset_frames desc_hi_bit p.memory.rx_size p.memory.rx_num p.rx_descriptors

    reset_at :
        (i : ℕ)
        → i < p.memory.rx_num
        → frame_at fresh i ≡ reset_frame desc_hi_bit p.memory.rx_size (frame_at p.rx_descriptors i)
    reset_at i h =
        reset_frames-at desc_hi_bit p.memory.rx_size p.memory.rx_num i p.rx_descriptors h
          (omega (arith, v.array))

    ring : (q : Port) → IsResetRx p q → IsRxRing q
    ring q r = record {
      array =
          ap length r.frames_reset
          ∙ reset_frames-length desc_hi_bit p.memory.rx_size p.memory.rx_num p.rx_descriptors
          ∙ v.array
          ∙ sym (ap (λ m. m.rx_num) r.memory_same);
      few = rw r.memory_same v.few;
      some_size = rw r.memory_same v.some_size;
      small = rw r.memory_same v.small;
      user_in = rw (r.user_zero, r.memory_same) (omega (arith, v.some_frame));
      fifo_in = rw (r.fifo_zero, r.memory_same) (omega (arith, v.some_frame));
      frames =
          rw (r.frames_reset, r.memory_same)
            λ i h.
              rw (reset_at i h)
                (record { whole = v.whole i h; counted = omega arith; room = λ z. v.some_size });
    }

    nothing_left :
        (q : Port)
        → IsResetRx p q
        → next_size q.rx_descriptors q.memory.rx_num q.user_rx_desc 0 q.memory.rx_num ≡ (false, 0)
    nothing_left q r =
        rw (r.frames_reset, r.user_zero, r.memory_same)
          (next_size-stops fresh p.memory.rx_num 0 0 p.memory.rx_num
            (ap (λ (f : IoFrame). has f.desc.control desc_fe_bit)
              (reset_at 0 (omega (arith, v.some_frame))))
            (ap (λ (f : IoFrame). has f.desc.control desc_cstop_bit)
              (reset_at 0 (omega (arith, v.some_frame)))))

-- A purge empties a well-formed receive ring: the ring stays well formed, and there is no frame
-- and no byte for the user.
pub purge_rx_lem :
    (e : Env) (p : Port)
    → IsRxRing p
    → IsRxRing (purge_rx e p).1 × (user_next_read_size (purge_rx e p).1 ≡ (false, 0))
purge_rx_lem e p v = purged_rx e p (record {
  array = v.array;
  few = v.few;
  some_size = v.some_size;
  small = v.small;
  some_frame = omega (arith, v.user_in);
  whole = λ i h. (v.frames i h).whole;
})
