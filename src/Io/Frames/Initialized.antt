-- ===== src/Io/Frames/Initialized.antt =====
-- io.c: the rings that fscc_io_initialize leaves.
use fscc_linux.Prelude.{
  ℕ, ◌*◌, ◌<◌, ◌≡◌, refl, sym, ap, ◌∙◌, ◌⊎◌, arith, List, ◌∷◌, true, Bool-cases, inl, inr, length,
}
use fscc_linux.Kernel.{
  Env, pool_create, kzalloc, ok, err, enomem, desc_pool, rx_buffer_pool, tx_buffer_pool,
}
use fscc_linux.State.{IoFrame, Port, frame_at, emit}
use fscc_linux.Port.Access.Keeps.{Keeps}
use fscc_linux.Io.Frames.{
  block_size, create_loop, create_rx_frames, create_tx_frames, link_descriptors, initialize_frames,
  initialize,
}
use fscc_linux.Io.Frames.Links.{link_descriptors_lem, length-link_descriptors}
use fscc_linux.Io.Frames.Made.{IsMade, create_loop-IsMade, create_loop-Keeps}

link-IsMade :
    {n most : ℕ} (frames : List IoFrame)
    → IsMade n most frames
    → IsMade n most (link_descriptors frames)
link-IsMade {n} {most} frames m = record { few = rw same m.few; whole = each }
  where
    same : length (link_descriptors frames) ≡ length frames
    same = length-link_descriptors frames

    each :
        (i : ℕ)
        → i < length (link_descriptors frames)
        → length (frame_at (link_descriptors frames) i).buffer ≡ n
    each i h =
        let lt : i < length frames = omega (arith, same) in
        ap (λ (g : IoFrame). length g.buffer) (link_descriptors_lem frames i lt).1 ∙ m.whole i lt

-- The rings as fscc_io_initialize leaves them, and the semaphores as they were.
pub record IsInitialized (rx_size tx_size : ℕ) (p q : Port) : Type 0 where
  pub rx_sized : q.memory.rx_size ≡ rx_size
  pub tx_sized : q.memory.tx_size ≡ tx_size
  pub rx_count : length q.rx_descriptors ≡ q.memory.rx_num
  pub tx_count : length q.tx_descriptors ≡ q.memory.tx_num
  pub rx_made : IsMade rx_size 200 q.rx_descriptors
  pub tx_made : IsMade tx_size 200 q.tx_descriptors
  pub read_same : q.read_semaphore ≡ p.read_semaphore
  pub write_same : q.write_semaphore ≡ p.write_semaphore

record IsRxMade (p q : Port) : Type 0 where
  sized : q.memory.rx_size ≡ p.memory.rx_size
  tx_sized : q.memory.tx_size ≡ p.memory.tx_size
  count : length q.rx_descriptors ≡ q.memory.rx_num
  made : IsMade p.memory.rx_size 200 q.rx_descriptors
  read_same : q.read_semaphore ≡ p.read_semaphore
  write_same : q.write_semaphore ≡ p.write_semaphore

create_rx_frames-IsRxMade :
    (e : Env) (p : Port)
    → ((create_rx_frames e 200 p).0 ≡ err enomem)
      ⊎ (((create_rx_frames e 200 p).0 ≡ ok 0) × IsRxMade p (create_rx_frames e 200 p).1)
unfolding create_rx_frames block_size
create_rx_frames-IsRxMade e p = elim (Bool-cases (e.allocates p.trace (8 * 200))) [
  | inr refused ↦ inl (rw refused refl)
  | inl given ↦
      inr (rw given (refl, loop (create_loop-Keeps e rx_buffer_pool p.memory.rx_size 0 200 p1)))
]
  where
    p1 : Port
    p1 = emit (kzalloc (8 * 200)) p

    frames : List IoFrame
    frames = (create_loop e rx_buffer_pool p.memory.rx_size 0 200 p1).0

    q : Port
    q = (create_loop e rx_buffer_pool p.memory.rx_size 0 200 p1).1

    loop :
        Keeps p1 q
        → IsRxMade p (record q {
          rx_array = true;
          rx_descriptors = link_descriptors frames;
          memory = record (q.memory) { rx_num = length frames };
        })
    loop k = record {
      sized = ap (λ m. m.rx_size) k.same_memory;
      tx_sized = ap (λ m. m.tx_size) k.same_memory;
      count = length-link_descriptors frames;
      made = link-IsMade frames (create_loop-IsMade e rx_buffer_pool p.memory.rx_size 0 200 p1);
      read_same = k.same_read_semaphore;
      write_same = k.same_write_semaphore;
    }

record IsTxMade (p q : Port) : Type 0 where
  rx_sized : q.memory.rx_size ≡ p.memory.rx_size
  sized : q.memory.tx_size ≡ p.memory.tx_size
  rx_counted : q.memory.rx_num ≡ p.memory.rx_num
  rx_same : q.rx_descriptors ≡ p.rx_descriptors
  count : length q.tx_descriptors ≡ q.memory.tx_num
  made : IsMade p.memory.tx_size 200 q.tx_descriptors
  read_same : q.read_semaphore ≡ p.read_semaphore
  write_same : q.write_semaphore ≡ p.write_semaphore

create_tx_frames-IsTxMade :
    (e : Env) (p : Port)
    → ((create_tx_frames e 200 p).0 ≡ err enomem)
      ⊎ (((create_tx_frames e 200 p).0 ≡ ok 0) × IsTxMade p (create_tx_frames e 200 p).1)
unfolding create_tx_frames block_size
create_tx_frames-IsTxMade e p = elim (Bool-cases (e.allocates p.trace (8 * 200))) [
  | inr refused ↦ inl (rw refused refl)
  | inl given ↦ inr (rw given (refl, loop (create_loop-Keeps e tx_buffer_pool 0 0 200 p1)))
]
  where
    p1 : Port
    p1 = emit (kzalloc (8 * 200)) p

    frames : List IoFrame
    frames = (create_loop e tx_buffer_pool 0 0 200 p1).0

    q : Port
    q = (create_loop e tx_buffer_pool 0 0 200 p1).1

    loop :
        Keeps p1 q
        → IsTxMade p (record q {
          tx_array = true;
          tx_descriptors = link_descriptors frames;
          memory = record (q.memory) { tx_num = length frames };
        })
    loop k = record {
      rx_sized = ap (λ m. m.rx_size) k.same_memory;
      sized = ap (λ m. m.tx_size) k.same_memory;
      rx_counted = ap (λ m. m.rx_num) k.same_memory;
      rx_same = k.same_rx_descriptors;
      count = length-link_descriptors frames;
      made = link-IsMade frames (create_loop-IsMade e tx_buffer_pool 0 0 200 p1);
      read_same = k.same_read_semaphore;
      write_same = k.same_write_semaphore;
    }

initialize_frames-IsInitialized :
    (e : Env) (p : Port)
    → ((initialize_frames e p).0 ≡ err enomem)
      ⊎ (((initialize_frames e p).0 ≡ ok 0)
          × IsInitialized p.memory.rx_size p.memory.tx_size p (initialize_frames e p).1)
unfolding initialize_frames
initialize_frames-IsInitialized e p = elim (create_rx_frames-IsRxMade e p) [
  | inl refused ↦ inl (rw (initialize_frames, refused) refl)
  | inr (given, rx) ↦ elim (create_tx_frames-IsTxMade e (create_rx_frames e 200 p).1) [
    | inl refused ↦ inl (rw (initialize_frames, given, refused) refl)
    | inr (given_tx, tx) ↦ inr (rw (initialize_frames, given, given_tx) (refl, both _ _ rx tx))
  ]
]
  where
    both :
        (q r : Port)
        → IsRxMade p q
        → IsTxMade q r
        → IsInitialized p.memory.rx_size p.memory.tx_size p r
    both q r rx tx = record {
      rx_sized = tx.rx_sized ∙ rx.sized;
      tx_sized = tx.sized ∙ rx.tx_sized;
      rx_count = rw (tx.rx_same, tx.rx_counted) rx.count;
      tx_count = tx.count;
      rx_made = rw tx.rx_same rx.made;
      tx_made = rw (sym rx.tx_sized) tx.made;
      read_same = tx.read_same ∙ rx.read_same;
      write_same = tx.write_same ∙ rx.write_same;
    }

-- When fscc_io_initialize succeeds, each ring has at most 200 frames, whose buffers have the sizes
-- that it was given; else it fails with ENOMEM.
pub initialize_lem :
    (e : Env) (rx_buffer_size tx_buffer_size : ℕ) (p : Port)
    → ((initialize e rx_buffer_size tx_buffer_size p).0 ≡ err enomem)
      ⊎ (((initialize e rx_buffer_size tx_buffer_size p).0 ≡ ok 0)
          × IsInitialized rx_buffer_size tx_buffer_size p
              (initialize e rx_buffer_size tx_buffer_size p).1)
unfolding initialize
initialize_lem e rx tx p = elim (Bool-cases (e.pool_creates p.trace desc_pool)) [
  | inr refused ↦ inl (rw refused refl)
  | inl a ↦ elim (Bool-cases (e.pool_creates (pool_create desc_pool 16 ∷ p.trace) rx_buffer_pool)) [
    | inr refused ↦ inl (rw (a, refused) refl)
    | inl b ↦
        elim (Bool-cases (
          e.pool_creates (pool_create rx_buffer_pool rx ∷ pool_create desc_pool 16 ∷ p.trace)
            tx_buffer_pool)) [
              | inr refused ↦ inl (rw (a, b, refused) refl)
              | inl c ↦ rw (a, b, c) (moved (initialize_frames-IsInitialized e sized))
            ]
  ]
]
  where
    p1 : Port
    p1 =
        emit (pool_create tx_buffer_pool tx)
          (emit (pool_create rx_buffer_pool rx) (emit (pool_create desc_pool 16) p))

    sized : Port
    sized = record p1 { memory = record (p.memory) { rx_size = rx; tx_size = tx } }

    moved :
        ((initialize_frames e sized).0 ≡ err enomem)
          ⊎ (((initialize_frames e sized).0 ≡ ok 0)
              × IsInitialized rx tx sized (initialize_frames e sized).1)
        → ((initialize_frames e sized).0 ≡ err enomem)
          ⊎ (((initialize_frames e sized).0 ≡ ok 0)
              × IsInitialized rx tx p (initialize_frames e sized).1)
    moved (inl x) = inl x
    moved (inr (x, i)) = inr (
      x,
      record {
        rx_sized = i.rx_sized;
        tx_sized = i.tx_sized;
        rx_count = i.rx_count;
        tx_count = i.tx_count;
        rx_made = i.rx_made;
        tx_made = i.tx_made;
        read_same = i.read_same;
        write_same = i.write_same;
      },
    )
