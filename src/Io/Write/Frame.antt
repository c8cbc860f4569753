-- ===== src/Io/Write/Frame.antt =====
-- fscc_user_write_frame as a whole: what fscc_write relies on when there is enough space.
use fscc_linux.Prelude.{
  ℕ, ◌+◌, ◌-◌, ◌*◌, ◌%◌, ◌^◌, ◌≤◌, ◌<◌, ◌≡◌, ◌≢◌, refl, ap, ◌∙◌, arith, List, ◌∷◌, true, length,
  take, take_all,
}
use fscc_linux.Kernel.{
  Env, ok, fit, fit-eq-take, kzalloc, spin_lock, spin_unlock, tx_lock, copy_from,
}
use fscc_linux.State.{Port, emit, frame_at}
use fscc_linux.Ring.{gather}
use fscc_linux.Port.Access.{set_register}
use fscc_linux.Port.Access.Keeps.{Keeps, Keeps-refl, set_register-Keeps}
use fscc_linux.Io.Dma.{is_tx_running}
use fscc_linux.Io.Dma.Keeps.{is_tx_running-Keeps, execute_transmit-Keeps}
use fscc_linux.Io.Ready.{user_get_tx_space}
use fscc_linux.Io.Ready.Space.{IsTxRing, user_get_tx_space-le, user_get_tx_space-free}
use fscc_linux.Io.Write.{Writing, start_dma, user_write_frame, write_loop}
use fscc_linux.Io.Write.Split.{Split, write_loop-Split}

-- `q` is `p` with the frame `buf` in the ring, in `used` descriptors from the user's one on.
pub record IsWritten (buf : List ℕ) (p q : Port) : Type 0 where
  pub used : ℕ
  pub enough : length buf ≤ used * p.memory.tx_size
  pub tight : used * p.memory.tx_size < length buf + p.memory.tx_size
  pub spelled : gather q.tx_descriptors p.memory.tx_num p.user_tx_desc used ≡ buf
  pub user : q.user_tx_desc ≡ (p.user_tx_desc + used) % p.memory.tx_num
  pub others :
      (k : ℕ)
      → ((j : ℕ) → j < used → k ≢ (p.user_tx_desc + j) % p.memory.tx_num)
      → frame_at q.tx_descriptors k ≡ frame_at p.tx_descriptors k

-- The environment gives the memory and copies every byte.
pub record Serves (e : Env) (n : ℕ) (p : Port) : Type 0 where
  pub allocates : e.allocates p.trace n ≡ true
  pub copies : e.copy_unmoved (kzalloc n ∷ p.trace) n ≡ 0

copied : (buf : List ℕ) (n u : ℕ) → length buf ≡ n → u ≡ 0 → fit n (take (n - u) buf) ≡ buf
copied buf n u e z =
    let all : take (n - u) buf ≡ buf = take_all (n - u) buf (omega arith) in
    rw all (fit-eq-take n buf (omega arith) ∙ take_all n buf (omega arith))

pub start_dma-Keeps : (e : Env) (start : ℕ) (p : Port) → Keeps p (start_dma e start p)
unfolding start_dma
start_dma-Keeps e start p = ground (
  arith,
  Keeps-refl p,
  is_tx_running-Keeps e p,
  set_register-Keeps e 2 0x10 start (is_tx_running e p).1,
  execute_transmit-Keeps e true (set_register e 2 0x10 start (is_tx_running e p).1).1,
)

-- The port and the variables with which the loop starts.
abbrev pub started : ℕ → Port → Writing
started n p = record {
  port = emit (spin_lock tx_lock) (emit (copy_from n) (emit (kzalloc n) p));
  out_length = 0;
  start_desc = 0;
  status = ok 0;
}

-- Behind the loop only the card is told.
user_write_frame-loop :
    (e : Env) (buf : List ℕ) (p : Port)
    → Serves e (length buf) p
    → let w = write_loop buf (length buf) 0 p.memory.tx_num (started (length buf) p) in
      ((user_write_frame e buf (length buf) p).0 ≡ w.status)
      × Keeps w.port (user_write_frame e buf (length buf) p).1
unfolding user_write_frame
user_write_frame-loop e buf p s =
    rw
      (
        s.allocates,
        copied buf (length buf) (e.copy_unmoved (kzalloc (length buf) ∷ p.trace) (length buf)) refl
            s.copies,
      )
      (
        refl,
        ground (
          arith,
          start_dma-Keeps e
              (write_loop buf (length buf) 0 p.memory.tx_num (started (length buf) p)).start_desc
              (emit (spin_unlock tx_lock)
                (write_loop buf (length buf) 0 p.memory.tx_num (started (length buf) p)).port),
        ),
      )

-- When the bytes fit the space that fscc_user_get_tx_space counts, a frame of at least one
-- and less than 2 ^ 29 bytes is accepted: the descriptors from the user's one on spell it, as few of them as hold it, the user's
-- index moves behind them, and every other descriptor is as before. The ring is well formed, and
-- the kernel gives the memory and copies every byte.
pub user_write_frame_lem :
    (e : Env) (buf : List ℕ) (p : Port)
    → IsTxRing p
    → 0 < length buf
    → length buf < 2 ^ 29
    → length buf ≤ user_get_tx_space p
    → Serves e (length buf) p
    → ((user_write_frame e buf (length buf) p).0 ≡ ok 0)
      × IsWritten buf p (user_write_frame e buf (length buf) p).1
user_write_frame_lem e buf p v pos small fits s =
    let (status, k) = user_write_frame-loop e buf p s in
    (
      status ∙ split.same_status,
      record {
        used = split.used;
        enough = omega (arith, split.enough);
        tight = omega (arith, split.tight);
        spelled =
            ap (λ fs. gather fs p.memory.tx_num p.user_tx_desc split.used) k.same_tx_descriptors
            ∙ split.spelled;
        user = k.same_user_tx_desc ∙ split.user;
        others = λ i ne. ap (λ fs. frame_at fs i) k.same_tx_descriptors ∙ split.others i ne;
      },
    )
  where
    split :
        Split buf
          (length buf)
          p.memory.tx_size
          p.memory.tx_num
          0
          p.memory.tx_num
          (started (length buf) p)
          (write_loop buf (length buf) 0 p.memory.tx_num (started (length buf) p))
    split =
        write_loop-Split buf (length buf) p.memory.tx_size p.memory.tx_num small refl v.few 0
          p.memory.tx_num 0 (started (length buf) p)
          (record {
            array = v.array;
            count = refl;
            size = refl;
            user_in = v.user_in;
            out = refl;
            more = pos;
          })
          (omega arith) (omega (arith, user_get_tx_space-le p v))
          (λ j lt h. user_get_tx_space-free p j v lt (omega arith))
