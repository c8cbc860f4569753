-- ===== src/Io/Purge/Fresh.antt =====
-- io.c: the rings after fscc_io_purge_tx and fscc_io_purge_rx.
use fscc_linux.Prelude.{
  ℕ, zero, suc, ◌+◌, ◌*◌, ◌%◌, ◌^◌, ◌<◌, ◌≡◌, refl, sym, ap, ap₂, ◌∙◌, arith, List, [], ◌∷◌, true,
  length,
}
use fscc_linux.Kernel.{Env, spin_lock, spin_unlock, tx_lock, rx_lock}
use fscc_linux.Offsets.{desc_cstop_bit, desc_hi_bit}
use fscc_linux.State.{IoFrame, Port, Memory, frame_at, control_at, has, emit}
use fscc_linux.Port.Access.Keeps.{Keeps-trans}
use fscc_linux.Io.Dma.{execute_rres, execute_tres}
use fscc_linux.Io.Dma.Keeps.{execute_rres-Keeps, execute_tres-Keeps}
use fscc_linux.Io.Ready.{tx_space, user_get_tx_space}
use fscc_linux.Io.Ready.Space.{IsTxRing, tx_space-free}
use fscc_linux.Io.Purge.Keeps.{
  stop_tx-Keeps, stop_rx-Keeps, point_tx-Keeps, point_rx-Keeps, start_rx-Keeps,
}
use fscc_linux.Io.Purge.{
  reset_frame, reset_frames, stop_tx, stop_rx, reset_tx, reset_rx, point_rx, purge_rx, purge_tx,
}

pub reset_frames-length :
    (c d n : ℕ) (frames : List IoFrame) → length (reset_frames c d n frames) ≡ length frames
unfolding reset_frames
reset_frames-length c d zero frames = refl
reset_frames-length c d (suc n) [] = refl
reset_frames-length c d (suc n) (f ∷ frames) = ap suc (reset_frames-length c d n frames)

pub reset_frames-at :
    (c d n i : ℕ) (frames : List IoFrame)
    → i < n
    → i < length frames
    → frame_at (reset_frames c d n frames) i ≡ reset_frame c d (frame_at frames i)
unfolding reset_frames
reset_frames-at c d zero i frames h k = absurd (omega arith)
reset_frames-at c d (suc n) i [] h k = absurd (omega arith)
reset_frames-at c d (suc n) zero (f ∷ frames) h k = refl
reset_frames-at c d (suc n) (suc i) (f ∷ frames) h k =
    reset_frames-at c d n i frames (omega arith) (omega arith)

-- In a ring of free descriptors everything is space.
tx_space-all :
    (frames : List IoFrame) (num tx left cur space : ℕ)
    → num < 2 ^ 32
    → ((i : ℕ) → i < num → has (control_at frames i) desc_cstop_bit ≡ true)
    → cur < num
    → space + left * tx < 2 ^ 64
    → tx_space frames num tx cur space left ≡ space + left * tx
unfolding tx_space
tx_space-all frames num tx zero cur space few free h small = omega arith
tx_space-all frames num tx (suc left) cur space few free h small = omega (
  arith,
  tx_space-free frames num tx few cur space left h (omega arith) (free cur h),
  tx_space-all frames num tx left ((cur + 1) % num) (space + tx) few free (omega arith)
      (omega arith),
)

-- What of a purge the driver sees is the reset of its own state.
record IsResetTx (p q : Port) : Type 0 where
  memory_same : q.memory ≡ p.memory
  frames_reset : q.tx_descriptors ≡ reset_frames desc_cstop_bit 0 p.memory.tx_num p.tx_descriptors
  user_zero : q.user_tx_desc ≡ 0
  fifo_zero : q.fifo_tx_desc ≡ 0

purge_tx-IsReset : (e : Env) (p : Port) → IsResetTx p (purge_tx e p).1
unfolding purge_tx reset_tx
purge_tx-IsReset e p =
    let locked = emit (spin_lock tx_lock) p in
    let before = Keeps-trans (stop_tx-Keeps e locked) (execute_tres-Keeps e (stop_tx e locked)) in
    let after = point_tx-Keeps e (reset_tx (execute_tres e (stop_tx e locked))) in
    record {
      memory_same = after.same_memory ∙ before.same_memory;
      frames_reset =
          after.same_tx_descriptors
          ∙ ap₂ (λ (m : Memory) fs. reset_frames desc_cstop_bit 0 m.tx_num fs) before.same_memory
              before.same_tx_descriptors;
      user_zero = after.same_user_tx_desc;
      fifo_zero = after.same_fifo_tx_desc;
    }

pub record IsResetRx (p q : Port) : Type 0 where
  pub memory_same : q.memory ≡ p.memory
  pub frames_reset :
      q.rx_descriptors ≡ reset_frames desc_hi_bit p.memory.rx_size p.memory.rx_num p.rx_descriptors
  pub user_zero : q.user_rx_desc ≡ 0
  pub fifo_zero : q.fifo_rx_desc ≡ 0

pub purge_rx-IsReset : (e : Env) (p : Port) → IsResetRx p (purge_rx e p).1
unfolding purge_rx reset_rx
purge_rx-IsReset e p =
    let locked = emit (spin_lock rx_lock) p in
    let before = Keeps-trans (stop_rx-Keeps e locked) (execute_rres-Keeps e (stop_rx e locked)) in
    let reset = reset_rx (execute_rres e (stop_rx e locked)) in
    let pointed = point_rx-Keeps e reset in
    let started = start_rx-Keeps e (emit (spin_unlock rx_lock) (point_rx e reset)) in
    record {
      memory_same = started.same_memory ∙ pointed.same_memory ∙ before.same_memory;
      frames_reset =
          started.same_rx_descriptors
          ∙ pointed.same_rx_descriptors
          ∙ ap₂ (λ (m : Memory) fs. reset_frames desc_hi_bit m.rx_size m.rx_num fs)
              before.same_memory before.same_rx_descriptors;
      user_zero = started.same_user_rx_desc ∙ pointed.same_user_rx_desc;
      fifo_zero = started.same_fifo_rx_desc ∙ pointed.same_fifo_rx_desc;
    }

-- What of a ring a purge needs: both ends may be anywhere.
pub record IsTxArray (p : Port) : Type 0 where
  pub array : length p.tx_descriptors ≡ p.memory.tx_num
  pub few : p.memory.tx_num < 2 ^ 32
  pub bounded : p.memory.tx_num * p.memory.tx_size < 2 ^ 32
  pub some_frame : 0 < p.memory.tx_num

pub record IsRxArray (p : Port) : Type 0 where
  pub array : length p.rx_descriptors ≡ p.memory.rx_num
  pub few : p.memory.rx_num < 2 ^ 32
  pub some_size : 0 < p.memory.rx_size
  pub small : p.memory.rx_size < 2 ^ 29
  pub some_frame : 0 < p.memory.rx_num
  pub whole :
      (i : ℕ) → i < p.memory.rx_num → length (frame_at p.rx_descriptors i).buffer ≡ p.memory.rx_size

pub purged_tx :
    (e : Env) (p : Port)
    → IsTxArray p
    → IsTxRing (purge_tx e p).1
      × (user_get_tx_space (purge_tx e p).1 ≡ p.memory.tx_num * p.memory.tx_size)
unfolding user_get_tx_space
purged_tx e p v =
    (ring (purge_tx e p).1 (purge_tx-IsReset e p), space (purge_tx e p).1 (purge_tx-IsReset e p))
  where
    ring : (q : Port) → IsResetTx p q → IsTxRing q
    ring q r = record {
      array =
          ap length r.frames_reset
          ∙ reset_frames-length desc_cstop_bit 0 p.memory.tx_num p.tx_descriptors
          ∙ v.array
          ∙ sym (ap (λ m. m.tx_num) r.memory_same);
      few = rw r.memory_same v.few;
      bounded = rw r.memory_same v.bounded;
      user_in = rw (r.user_zero, r.memory_same) (omega (arith, v.some_frame));
      fifo_in = rw (r.fifo_zero, r.memory_same) (omega (arith, v.some_frame));
    }

    space : (q : Port) → IsResetTx p q → user_get_tx_space q ≡ p.memory.tx_num * p.memory.tx_size
    space q r =
        rw (r.frames_reset, r.user_zero, r.memory_same)
          (omega (
            arith,
            tx_space-all (reset_frames desc_cstop_bit 0 p.memory.tx_num p.tx_descriptors)
                p.memory.tx_num p.memory.tx_size p.memory.tx_num 0 0 v.few
                (λ i h.
                  ap (λ (f : IoFrame). has f.desc.control desc_cstop_bit)
                    (reset_frames-at desc_cstop_bit 0 p.memory.tx_num i p.tx_descriptors h
                      (omega (arith, v.array))))
                (omega (arith, v.some_frame)) (omega (arith, v.bounded)),
          ))

-- A purge gives the whole of a well-formed transmit ring back to the user: the ring stays well
-- formed, and its space is all of its memory.
pub purge_tx_lem :
    (e : Env) (p : Port)
    → IsTxRing p
    → IsTxRing (purge_tx e p).1
      × (user_get_tx_space (purge_tx e p).1 ≡ p.memory.tx_num * p.memory.tx_size)
purge_tx_lem e p v = purged_tx e p (record {
  array = v.array;
  few = v.few;
  bounded = v.bounded;
  some_frame = omega (arith, v.user_in);
})
