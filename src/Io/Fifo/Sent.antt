-- ===== src/Io/Fifo/Sent.antt =====
-- io.c: which bytes fscc_fifo_write_data puts into the transmit FIFO.
use native.Mathlib.Nat.{mod-add-mod}
use fscc_linux.Prelude.{
  ◌<◌, false, ℕ, zero, suc, ◌+◌, ◌*◌, ◌/◌, ◌%◌, ◌^◌, ◌≤◌, ◌≡◌, refl, ◌∙◌, sym, ap, arith, List, [],
  ◌++◌, append-nil, append_assoc, Bool-cases, inl, inr, length, take, All, All-set, All-get_or,
  get_or-set_ne, set,
}
use fscc_linux.State.{IoFrame, frame_at, no_frame, next_desc}
use fscc_linux.Offsets.{fifo_offset, desc_cstop_bit}
use fscc_linux.Ring.{data_of, next_desc_lem, next_desc-lt, add-mod-ne, mod-shift, mod-start}
use fscc_linux.Port.Access.{set_register_rep}
use fscc_linux.Port.Access.Keeps.{set_register_rep-Keeps, Keeps}
use fscc_linux.Io.Fifo.Send.{Sending, stops, send_frame, send_loop}
use fscc_linux.Io.Fifo.Chunks.{
  fifo_content, IsFilled, chunk_of, set_register_rep-chunk, take-chunk_of, length-chunk_of,
}

-- `bytes` are those of `n` descriptors from `cur` on, each filled up to a whole number of words.
unfoldable pub Carries : List IoFrame → ℕ → ℕ → ℕ → List ℕ → Type 0
Carries frames num cur zero bytes = bytes ≡ []
Carries frames num cur (suc n) bytes =
    (chunk : List ℕ) × (rest : List ℕ) × (bytes ≡ chunk ++ rest)
    × (take (frame_at frames cur).desc.data_count chunk ≡ data_of (frame_at frames cur))
    × (length chunk ≡ ((frame_at frames cur).desc.data_count + 3) / 4 * 4)
    × Carries frames num ((cur + 1) % num) n rest

module _ (frames : List IoFrame) (num c : ℕ) (x : IoFrame) (inside : c < num) where
  step_on : (j : ℕ) → ((c + suc j) % num + 1) % num ≡ (c + suc (suc j)) % num
  step_on j = rw mod-add-mod (ap (λ k. k % num) (omega arith))

  -- What stands at the start of a run does not matter behind it.
  Carries-set :
      (n j : ℕ) (bytes : List ℕ)
      → j + n < num
      → Carries (set frames c x) num ((c + suc j) % num) n bytes
      → Carries frames num ((c + suc j) % num) n bytes
  unfolding Carries
  Carries-set zero j bytes few h = h
  Carries-set (suc n) j bytes few (chunk, rest, whole, held, size, others) =
      let next = (c + suc j) % num in
      let same : frame_at (set frames c x) next ≡ frame_at frames next =
        get_or-set_ne frames c next x no_frame
          (λ e. add-mod-ne c j num inside (omega arith) (sym e)) in
      (
        chunk,
        rest,
        whole,
        rw same at held,
        rw same at size,
        rw (step_on j) (Carries-set n (suc j) rest (omega arith) (rw (step_on j) at others)),
      )

-- A descriptor after its bytes have gone out.
abbrev reset : IoFrame → IoFrame
reset f = record f { desc = record (f.desc) { data_count = 0; control = desc_cstop_bit } }

module _ (f : IoFrame) (s : Sending) where
  kept : Keeps s.port (set_register_rep 0 fifo_offset f.buffer f.desc.data_count s.port)
  kept = set_register_rep-Keeps 0 fifo_offset f.buffer f.desc.data_count s.port

  send_frame-put :
      fifo_content (send_frame f s).port
      ≡ fifo_content s.port ++ chunk_of f.buffer f.desc.data_count
  unfolding send_frame
  send_frame-put = set_register_rep-chunk f.buffer f.desc.data_count s.port

  send_frame-frames :
      (send_frame f s).port.tx_descriptors ≡ set s.port.tx_descriptors s.port.fifo_tx_desc (reset f)
  unfolding send_frame
  send_frame-frames = rw kept.same_tx_descriptors refl

  send_frame-memory : (send_frame f s).port.memory ≡ s.port.memory
  unfolding send_frame
  send_frame-memory = kept.same_memory

  send_frame-index :
      (send_frame f s).port.fifo_tx_desc ≡ next_desc s.port.fifo_tx_desc s.port.memory.tx_num
  unfolding send_frame
  send_frame-index = refl

-- What the loop has put out, and where it stands.
pub record IsSent (s t : Sending) (left : ℕ) : Type 0 where
  pub n : ℕ
  pub bytes : List ℕ
  pub few : n ≤ left
  pub put : fifo_content t.port ≡ fifo_content s.port ++ bytes
  pub carried : Carries s.port.tx_descriptors s.port.memory.tx_num s.port.fifo_tx_desc n bytes
  pub index : t.port.fifo_tx_desc ≡ (s.port.fifo_tx_desc + n) % s.port.memory.tx_num

-- A round of the loop, before the rounds behind it.
module _ (s : Sending) (small : s.port.memory.tx_num < 2 ^ 32)
    (inside : s.port.fifo_tx_desc < s.port.memory.tx_num)
    (filled : All IsFilled s.port.tx_descriptors) where
  abbrev cur : ℕ
  cur = s.port.fifo_tx_desc

  abbrev num : ℕ
  num = s.port.memory.tx_num

  abbrev f : IoFrame
  f = frame_at s.port.tx_descriptors cur

  f-IsFilled : IsFilled f
  f-IsFilled =
      All-get_or IsFilled s.port.tx_descriptors cur no_frame
        (record { within = omega arith; bytes = tt }) filled

  next_index : (send_frame f s).port.fifo_tx_desc ≡ (cur + 1) % num
  next_index = send_frame-index f s ∙ next_desc_lem cur num inside small

  next_inside : (send_frame f s).port.fifo_tx_desc < (send_frame f s).port.memory.tx_num
  next_inside = rw (send_frame-memory f s, send_frame-index f s) (next_desc-lt cur num inside)

  next-IsFilled : All IsFilled (send_frame f s).port.tx_descriptors
  next-IsFilled = rw (send_frame-frames f s) (
      All-set IsFilled s.port.tx_descriptors cur (reset f)
        (record { within = omega arith; bytes = f-IsFilled.bytes }) filled)

  stopped-IsSent : (left : ℕ) → IsSent s s left
  stopped-IsSent left = record {
    n = 0;
    bytes = [];
    few = omega arith;
    put = sym (append-nil (fifo_content s.port));
    carried = unfold Carries in refl;
    index = sym (mod-start cur num inside);
  }

  round-IsSent :
      (left : ℕ) (t : Sending)
      → suc left ≤ num
      → IsSent (send_frame f s) t left
      → IsSent s t (suc left)
  unfolding Carries
  round-IsSent left t enough rest =
      let chunk = chunk_of f.buffer f.desc.data_count in
      let behind : Carries (set s.port.tx_descriptors cur (reset f)) num ((cur + 1) % num) rest.n
          rest.bytes =
        rw (send_frame-frames f s, send_frame-memory f s, next_index) at rest.carried in
      record {
        n = suc rest.n;
        bytes = chunk ++ rest.bytes;
        few = omega (arith, rest.few);
        put =
            rest.put
            ∙ rw (send_frame-put f s) (append_assoc (fifo_content s.port) chunk rest.bytes);
        carried = (
          chunk,
          rest.bytes,
          refl,
          take-chunk_of f.desc.data_count f.buffer f-IsFilled.within f-IsFilled.bytes,
          length-chunk_of f.desc.data_count f.buffer f-IsFilled.within,
          Carries-set s.port.tx_descriptors num cur (reset f) inside rest.n 0 rest.bytes
              (omega (arith, rest.few)) behind,
        );
        index = rest.index ∙ rw (send_frame-memory f s, next_index) (mod-shift cur rest.n num);
      }

pub send_loop-IsSent :
    (tfcnt left : ℕ) (s : Sending)
    → s.port.memory.tx_num < 2 ^ 32
    → left ≤ s.port.memory.tx_num
    → s.port.fifo_tx_desc < s.port.memory.tx_num
    → All IsFilled s.port.tx_descriptors
    → IsSent s (send_loop tfcnt left s) left
unfolding send_loop
send_loop-IsSent tfcnt zero s small enough inside filled = stopped-IsSent s small inside filled 0
send_loop-IsSent tfcnt (suc left) s small enough inside filled =
    let f = frame_at s.port.tx_descriptors s.port.fifo_tx_desc in
    let rest =
      send_loop-IsSent tfcnt left (send_frame f s) (rw (send_frame-memory f s) small)
        (rw (send_frame-memory f s) (omega (arith, enough))) (next_inside s small inside filled)
        (next-IsFilled s small inside filled) in
    elim (Bool-cases (stops tfcnt f s)) [
      | inl stop ↦ rw stop (stopped-IsSent s small inside filled (suc left))
      | inr more ↦ rw more (
          round-IsSent s small inside filled left (send_loop tfcnt left (send_frame f s)) enough
            rest)
    ]

-- A loop that does not stop at its first descriptor sends at least that one.
pub send_loop-sends :
    (tfcnt left : ℕ) (s : Sending)
    → 0 < left
    → s.port.memory.tx_num < 2 ^ 32
    → left ≤ s.port.memory.tx_num
    → s.port.fifo_tx_desc < s.port.memory.tx_num
    → All IsFilled s.port.tx_descriptors
    → stops tfcnt (frame_at s.port.tx_descriptors s.port.fifo_tx_desc) s ≡ false
    → (sent : IsSent s (send_loop tfcnt left s) left) × (0 < sent.n)
unfolding send_loop round-IsSent
send_loop-sends tfcnt zero s low small enough inside filled more = absurd (omega arith)
send_loop-sends tfcnt (suc left) s low small enough inside filled more =
    let f = frame_at s.port.tx_descriptors s.port.fifo_tx_desc in
    let rest =
      send_loop-IsSent tfcnt left (send_frame f s) (rw (send_frame-memory f s) small)
        (rw (send_frame-memory f s) (omega (arith, enough))) (next_inside s small inside filled)
        (next-IsFilled s small inside filled) in
    rw more (
      round-IsSent s small inside filled left (send_loop tfcnt left (send_frame f s)) enough rest,
      omega arith,
    )
