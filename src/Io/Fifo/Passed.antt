-- ===== src/Io/Fifo/Passed.antt =====
-- io.c: what fscc_fifo_write_data as a whole passes on to the transmit FIFO.
use fscc_linux.Prelude.{
  false, ℕ, ◌+◌, ◌%◌, ◌≤◌, ◌≡◌, ◌≢◌, refl, ◌∙◌, sym, ap, arith, List, [], ◌++◌, append-nil,
  Bool-cases, inl, inr, if◌then◌else◌, ltb, All,
}
use fscc_linux.Kernel.{Env, Lock, spin_lock, spin_unlock, tx_lock, truthy}
use fscc_linux.State.{Port, emit}
use fscc_linux.Offsets.{bc_fifo_l_offset, fifo_offset}
use fscc_linux.Utils.{port_offset}
use fscc_linux.Ring.{mod-start}
use fscc_linux.Card
use fscc_linux.Port.Access.{get_register, write_through, set_register}
use fscc_linux.Port.Access.Keeps.{Keeps, Keeps-trans, set_register-Keeps}
use fscc_linux.Io.Dma.Keeps.{get_tfcnt-Keeps, get_txcnt-Keeps}
use fscc_linux.Io.Dma.{get_tfcnt, get_txcnt}
use fscc_linux.Io.Ready.Space.{IsTxRing}
use fscc_linux.Io.Fifo.Send.{tx_fifo_size, fifo_room, Sending, send_loop, fifo_write_data}
use fscc_linux.Io.Fifo.Chunks.{bytes_at, fifo_content, IsFilled}
use fscc_linux.Io.Fifo.Sent.{Carries, IsSent, send_loop-IsSent}

-- From `p` to `q`, the FIFO has got the bytes of a run of descriptors, and its index is behind them.
pub record IsPassed (p q : Port) : Type 0 where
  pub n : ℕ
  pub bytes : List ℕ
  pub few : n ≤ p.memory.tx_num
  pub put : fifo_content q ≡ fifo_content p ++ bytes
  pub carried : Carries p.tx_descriptors p.memory.tx_num p.fifo_tx_desc n bytes
  pub index : q.fifo_tx_desc ≡ (p.fifo_tx_desc + n) % p.memory.tx_num

get_register-content :
    (e : Env) (offset : ℕ) (p : Port) → fifo_content (get_register e 0 offset p).1 ≡ fifo_content p
unfolding get_register Card.get_register bytes_at
get_register-content e offset p = refl

get_tfcnt-content : (e : Env) (p : Port) → fifo_content (get_tfcnt e p).1 ≡ fifo_content p
unfolding get_tfcnt
get_tfcnt-content e p = get_register-content e 0x10 p

get_txcnt-content : (e : Env) (p : Port) → fifo_content (get_txcnt e p).1 ≡ fifo_content p
unfolding get_txcnt
get_txcnt-content e p = get_register-content e 0x0c p

set_register-content :
    (e : Env) (n : ℕ) (p : Port)
    → fifo_content (set_register e 0 bc_fifo_l_offset n p).1 ≡ fifo_content p
unfolding set_register write_through Card.set_register bytes_at
set_register-content e n p = ground (arith, apart, append-nil (fifo_content p))
  where
    apart : port_offset p.channel 0 bc_fifo_l_offset ≢ port_offset p.channel 0 fifo_offset
    apart = unfold port_offset in ground arith

emit_lock-content :
    (l : Lock) (p : Port)
    → (fifo_content (emit (spin_lock l) p) ≡ fifo_content p)
      × (fifo_content (emit (spin_unlock l) p) ≡ fifo_content p)
unfolding bytes_at
emit_lock-content l p = (refl, refl)

-- Register access and locks around a run pass nothing on.
quiet : {p q : Port} → IsTxRing p → Keeps p q → fifo_content q ≡ fifo_content p → IsPassed p q
quiet {p} {q} v k e = record {
  n = 0;
  bytes = [];
  few = omega arith;
  put = e ∙ sym (append-nil (fifo_content p));
  carried = unfold Carries in refl;
  index = k.same_fifo_tx_desc ∙ sym (mod-start p.fifo_tx_desc p.memory.tx_num v.fifo_in);
}

sized :
    (e : Env) (n : ℕ) (q : Port)
    → (let q' = if truthy n then (set_register e 0 bc_fifo_l_offset n q).1 else q in
        (fifo_content q' ≡ fifo_content q) × (q'.fifo_tx_desc ≡ q.fifo_tx_desc))
sized e n q = elim (Bool-cases (truthy n)) [
  | inl some_size ↦
      rw some_size (
        set_register-content e n q,
        (set_register-Keeps e 0 bc_fifo_l_offset n q).same_fifo_tx_desc,
      )
  | inr no_size ↦ rw no_size (refl, refl)
]

-- What the loop sends is passed on, if the port before the loop and the one after it differ from
-- `p` and `q` in nothing that counts.
around :
    (p q : Port) (b s : Sending) (left : ℕ)
    → (sent : IsSent b s left) → left ≤ p.memory.tx_num
    → Keeps p b.port
    → fifo_content b.port ≡ fifo_content p
    → fifo_content q ≡ fifo_content s.port
    → q.fifo_tx_desc ≡ s.port.fifo_tx_desc
    → (k : IsPassed p q) × (k.n ≡ sent.n)
around p q b s left sent few k before after index = (
  record {
    n = sent.n;
    bytes = sent.bytes;
    few = omega (arith, sent.few);
    put = after ∙ sent.put ∙ ap (λ t. t ++ sent.bytes) before;
    carried = rw (k.same_tx_descriptors, k.same_memory, k.same_fifo_tx_desc) at sent.carried;
    index = index ∙ sent.index ∙ rw (k.same_memory, k.same_fifo_tx_desc) refl;
  },
  refl,
)

module _ (e : Env) (p : Port) where
  abbrev pub after_counts : Port
  after_counts = (get_txcnt e (get_tfcnt e p).1).1

  abbrev pub room : ℕ
  room = fifo_room (get_txcnt e (get_tfcnt e p).1).0

  pub counts-Keeps : Keeps p after_counts
  counts-Keeps = Keeps-trans (get_tfcnt-Keeps e p) (get_txcnt-Keeps e (get_tfcnt e p).1)

  counts-content : fifo_content after_counts ≡ fifo_content p
  counts-content = get_txcnt-content e (get_tfcnt e p).1 ∙ get_tfcnt-content e p

  -- What the loop starts from.
  abbrev pub begun : Sending
  begun = record {
    port = emit (spin_lock tx_lock) after_counts;
    fifo_space = room;
    frame_size = 0;
    data_written = 0;
  }

  begun-Keeps : Keeps p begun.port
  begun-Keeps = Keeps-trans counts-Keeps (ground arith)

  abbrev pub looped : Sending
  looped = send_loop (get_tfcnt e p).0 after_counts.memory.tx_num begun

  -- If the loop is reached, what it sends is passed on.
  pub fifo_write_data-loops :
      ltb 254 (get_tfcnt e p).0 ≡ false
      → ltb tx_fifo_size room ≡ false
      → (sent : IsSent begun looped after_counts.memory.tx_num)
      → (k : IsPassed p (fifo_write_data e p).1) × (k.n ≡ sent.n)
  unfolding fifo_write_data
  fifo_write_data-loops few small sent =
      let s = looped in
      let ended : Port =
        if truthy s.frame_size
        then (set_register e 0 bc_fifo_l_offset s.frame_size s.port).1
        else s.port in
      rw (few, small)
        (around p (emit (spin_unlock tx_lock) ended) begun s after_counts.memory.tx_num sent
          (rw counts-Keeps.same_memory (omega arith)) begun-Keeps
          ((emit_lock-content tx_lock after_counts).0 ∙ counts-content)
          ((emit_lock-content tx_lock ended).1 ∙ (sized e s.frame_size s.port).0)
          (sized e s.frame_size s.port).1)

-- fscc_fifo_write_data passes the data of a run of descriptors on to the transmit FIFO, in the
-- order of the ring and each filled up to whole words, and leaves the FIFO's index behind them, if
-- the ring is well formed and no descriptor counts more than its buffer holds.
pub fifo_write_data-IsPassed :
    (e : Env) (p : Port)
    → IsTxRing p
    → All IsFilled p.tx_descriptors
    → IsPassed p (fifo_write_data e p).1
unfolding fifo_write_data
fifo_write_data-IsPassed e p v filled = elim (Bool-cases (ltb 254 (get_tfcnt e p).0)) [
  | inl full ↦ rw full (quiet v (get_tfcnt-Keeps e p) (get_tfcnt-content e p))
  | inr few ↦ elim (Bool-cases (ltb tx_fifo_size (room e p))) [
    | inl over ↦ rw (few, over) (quiet v kept (counts-content e p))
    | inr small ↦ (fifo_write_data-loops e p few small sent).0
  ]
]
  where
    kept : Keeps p (after_counts e p)
    kept = counts-Keeps e p

    sent : IsSent (begun e p) (looped e p) (after_counts e p).memory.tx_num
    sent =
        send_loop-IsSent (get_tfcnt e p).0 (after_counts e p).memory.tx_num (begun e p)
          (rw kept.same_memory v.few) (omega arith)
          (rw (kept.same_memory, kept.same_fifo_tx_desc) v.fifo_in)
          (rw kept.same_tx_descriptors filled)
