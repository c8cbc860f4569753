-- ===== src/Io/Write/Split.antt =====
-- The loop of fscc_user_write_frame: the bytes of a frame, split over free descriptors.
use fscc_linux.Prelude.{
  ℕ, zero, suc, ◌+◌, ◌-◌, ◌*◌, ◌%◌, ◌^◌, ◌≤◌, ◌<◌, ◌≡◌, ◌≢◌, refl, sym, ap, ap₂, ◌∙◌, arith, ◌⊎◌,
  inl, inr, List, ◌++◌, append-nil, true, length, take, drop, length-set, get_or-set_self,
  get_or-set_ne, take-append_exact, take-append-drop, take_all, drop-drop, length-drop,
}
use fscc_linux.Kernel.{u32, fit, fit-eq-take, length-fit}
use fscc_linux.Offsets.{desc_cstop_bit}
use fscc_linux.State.{IoFrame, frame_at, control_at, has, next_desc, no_frame}
use fscc_linux.Ring.{next_desc_lem, next_desc-lt, add-mod-ne, mod-shift, mod-start, data_of, gather}
use fscc_linux.Io.Write.{Writing, fill_frame, transmit_size, write_round, write_loop}

-- The chunk that a round writes can be read back from the descriptor.
data_of-fill_frame :
    (bytes : List ℕ) (dl i o t : ℕ) (frame : IoFrame)
    → t < 2 ^ 32
    → o + t ≤ length bytes
    → data_of (fill_frame bytes dl i o t frame) ≡ take t (drop o bytes)
unfolding fill_frame
data_of-fill_frame bytes dl i o t frame small fits =
    let e : u32 t ≡ t = omega arith in
    rw e (
      take-append_exact t (fit t (drop o bytes)) (drop t frame.buffer) (length-fit t (drop o bytes))
      ∙ fit-eq-take t (drop o bytes) (omega (arith, length-drop o bytes)))

transmit_size_lem :
    (tx dl o : ℕ)
    → o < dl
    → dl < 2 ^ 29
    → ((dl ≤ o + tx) × (transmit_size tx dl o ≡ dl - o))
      ⊎ ((o + tx < dl) × (transmit_size tx dl o ≡ tx))
unfolding transmit_size
transmit_size_lem tx dl o h k = ground arith

-- The two ways in which a round on a free descriptor ends.
write_loop-last :
    (bytes : List ℕ) (dl i left : ℕ) (w : Writing)
    → has (control_at w.port.tx_descriptors w.port.user_tx_desc) desc_cstop_bit ≡ true
    → dl < 2 ^ 29
    → (write_round bytes dl i w).out_length ≡ dl
    → write_loop bytes dl i (suc left) w ≡ write_round bytes dl i w
unfolding write_loop
write_loop-last bytes dl i left w free small out = ground arith

write_loop-more :
    (bytes : List ℕ) (dl i left : ℕ) (w : Writing)
    → has (control_at w.port.tx_descriptors w.port.user_tx_desc) desc_cstop_bit ≡ true
    → dl < 2 ^ 29
    → (write_round bytes dl i w).out_length < dl
    → write_loop bytes dl i (suc left) w
      ≡ write_loop bytes dl (i + 1) left (write_round bytes dl i w)
unfolding write_loop
write_loop-more bytes dl i left w free small out = ground arith

module _ (bytes : List ℕ) (dl tx num : ℕ) where
  -- What the loop is called with, `o` bytes into the frame.
  pub record Before (o : ℕ) (w : Writing) : Type 0 where
    pub array : length w.port.tx_descriptors ≡ num
    pub count : w.port.memory.tx_num ≡ num
    pub size : w.port.memory.tx_size ≡ tx
    pub user_in : w.port.user_tx_desc < num
    pub out : w.out_length ≡ o
    pub more : o < dl

  -- What it leaves behind.
  pub record Split (o left : ℕ) (w w' : Writing) : Type 0 where
    pub used : ℕ
    pub used_le : used ≤ left
    pub enough : dl ≤ o + used * tx
    pub tight : o + used * tx < dl + tx
    pub same_status : w'.status ≡ w.status
    pub all_out : w'.out_length ≡ dl
    pub user : w'.port.user_tx_desc ≡ (w.port.user_tx_desc + used) % num
    pub spelled : gather w'.port.tx_descriptors num w.port.user_tx_desc used ≡ drop o bytes
    pub others :
        (k : ℕ)
        → ((j : ℕ) → j < used → k ≢ (w.port.user_tx_desc + j) % num)
        → frame_at w'.port.tx_descriptors k ≡ frame_at w.port.tx_descriptors k
    pub same_length : length w'.port.tx_descriptors ≡ num

  -- One round, in which `t` bytes go out.
  record Round (o t : ℕ) (w w1 : Writing) : Type 0 where
    array1 : length w1.port.tx_descriptors ≡ num
    memory1 : w1.port.memory ≡ w.port.memory
    user1 : w1.port.user_tx_desc ≡ (w.port.user_tx_desc + 1) % num
    user_in1 : w1.port.user_tx_desc < num
    out1 : w1.out_length ≡ o + t
    status1 : w1.status ≡ w.status
    written : data_of (frame_at w1.port.tx_descriptors w.port.user_tx_desc) ≡ take t (drop o bytes)
    others1 :
        (k : ℕ)
        → k ≢ w.port.user_tx_desc
        → frame_at w1.port.tx_descriptors k ≡ frame_at w.port.tx_descriptors k

  module _ (small : dl < 2 ^ 29) (all : length bytes ≡ dl) (few : num < 2 ^ 32) where
    write_round_lem :
        (o t i : ℕ) (w : Writing)
        → Before o w
        → transmit_size w.port.memory.tx_size dl w.out_length ≡ t
        → o + t ≤ dl
        → Round o t w (write_round bytes dl i w)
    unfolding write_round
    write_round_lem o t i w b e le = record {
      array1 = length-set w.port.tx_descriptors w.port.user_tx_desc _ ∙ b.array;
      memory1 = refl;
      user1 =
          ap (next_desc w.port.user_tx_desc) b.count
          ∙ next_desc_lem w.port.user_tx_desc num b.user_in few;
      user_in1 = omega (
        arith,
        ap (next_desc w.port.user_tx_desc) b.count,
        next_desc-lt w.port.user_tx_desc num b.user_in,
      );
      out1 = omega (arith, e);
      status1 = refl;
      written =
          rw
            (get_or-set_self w.port.tx_descriptors w.port.user_tx_desc
              (fill_frame bytes dl i w.out_length
                (transmit_size w.port.memory.tx_size dl w.out_length)
                (frame_at w.port.tx_descriptors w.port.user_tx_desc))
              no_frame (omega arith))
            (ap₂
                (λ s l.
                  data_of (
                    fill_frame bytes dl i s l (frame_at w.port.tx_descriptors w.port.user_tx_desc)))
                b.out e
              ∙ data_of-fill_frame bytes dl i o t _ (omega arith) (omega arith));
      others1 = λ k ne.
          get_or-set_ne w.port.tx_descriptors w.port.user_tx_desc k _ no_frame (λ q. ne (sym q));
    }

    abbrev IsFree : List IoFrame → ℕ → ℕ → Type 0
    IsFree frames c j = has (control_at frames ((c + j) % num)) desc_cstop_bit ≡ true

    -- The free descriptors ahead are still free after the round.
    still-IsFree :
        (o t left : ℕ) (w w1 : Writing)
        → Before o w
        → Round o t w w1
        → suc left ≤ num
        → t ≡ tx
        → ((j : ℕ)
            → j < suc left
            → o + j * tx < dl
            → IsFree w.port.tx_descriptors w.port.user_tx_desc j)
        → (j : ℕ) → j < left
        → o + t + j * tx < dl
        → IsFree w1.port.tx_descriptors w1.port.user_tx_desc j
    still-IsFree o t left w w1 b r le e free j lt h =
        rw (r.user1, mod-shift w.port.user_tx_desc j num)
          (ap (λ (f : IoFrame). has f.desc.control desc_cstop_bit)
              (r.others1 ((w.port.user_tx_desc + suc j) % num)
                (add-mod-ne w.port.user_tx_desc j num b.user_in (omega arith)))
            ∙ free (suc j) (omega arith) (omega arith))

    -- The last round.
    Split-last :
        (o t left : ℕ) (w w1 : Writing)
        → Before o w
        → Round o t w w1
        → o + t ≡ dl
        → dl ≤ o + tx
        → Split o (suc left) w w1
    unfolding gather
    Split-last o t left w w1 b r e h = record {
      used = 1;
      used_le = omega arith;
      enough = omega arith;
      tight = omega arith;
      same_status = r.status1;
      all_out = omega arith;
      user = r.user1;
      spelled =
          append-nil _ ∙ r.written ∙ take_all t (drop o bytes) (omega (arith, length-drop o bytes));
      others = λ k ne.
          r.others1 k
            (λ q. ne 0 (omega arith) (q ∙ sym (mod-start w.port.user_tx_desc num b.user_in)));
      same_length = r.array1;
    }

    -- A round before the last one, and the rest.
    Split-more :
        (o t left : ℕ) (w w1 w' : Writing)
        → Before o w
        → Round o t w w1
        → t ≡ tx
        → suc left ≤ num
        → Split (o + t) left w1 w'
        → Split o (suc left) w w'
    unfolding gather
    Split-more o t left w w1 w' b r e le s = record {
      used = suc s.used;
      used_le = omega (arith, s.used_le);
      enough = omega (arith, s.enough);
      tight = omega (arith, s.tight);
      same_status = s.same_status ∙ r.status1;
      all_out = s.all_out;
      user = s.user ∙ onward s.used;
      spelled =
          ap₂ ◌++◌ (ap data_of (s.others w.port.user_tx_desc start_kept) ∙ r.written) (
            ap (λ c. gather w'.port.tx_descriptors num c s.used) (sym r.user1)
            ∙ s.spelled
            ∙ sym (drop-drop t o bytes))
          ∙ take-append-drop t (drop o bytes);
      others = λ k ne.
          s.others k (λ j lt q. ne (suc j) (omega arith) (q ∙ onward j))
          ∙ r.others1 k
              (λ q. ne 0 (omega arith) (q ∙ sym (mod-start w.port.user_tx_desc num b.user_in)));
      same_length = s.same_length;
    }
      where
        onward : (j : ℕ) → (w1.port.user_tx_desc + j) % num ≡ (w.port.user_tx_desc + suc j) % num
        onward j = ap (λ (c : ℕ). (c + j) % num) r.user1 ∙ mod-shift w.port.user_tx_desc j num

        start_kept : (j : ℕ) → j < s.used → w.port.user_tx_desc ≢ (w1.port.user_tx_desc + j) % num
        start_kept j lt q =
            add-mod-ne w.port.user_tx_desc j num b.user_in (omega (arith, s.used_le))
              (sym (onward j) ∙ sym q)

    -- With room for what is left, the loop splits it all.
    pub write_loop-Split :
        (o left i : ℕ) (w : Writing)
        → Before o w
        → left ≤ num
        → dl ≤ o + left * tx
        → ((j : ℕ)
            → j < left
            → o + j * tx < dl
            → IsFree w.port.tx_descriptors w.port.user_tx_desc j)
        → Split o left w (write_loop bytes dl i left w)
    write_loop-Split o zero i w b le room free = absurd (omega (arith, b.more))
    write_loop-Split o (suc left) i w b le room free =
        elim (transmit_size_lem w.port.memory.tx_size dl w.out_length (omega arith) small) [
          | inl (fits, e) ↦
              (let r = write_round_lem o (dl - w.out_length) i w b e (omega arith) in
                rw (write_loop-last bytes dl i left w first small (omega (arith, r.out1)))
                  (Split-last o (dl - w.out_length) left w _ b r (omega arith) (omega arith)))
          | inr (over, e) ↦
              (let r = write_round_lem o w.port.memory.tx_size i w b e (omega arith) in
                rw (write_loop-more bytes dl i left w first small (omega (arith, r.out1))) (
                  Split-more o w.port.memory.tx_size left w _ _ b r b.size le (
                    write_loop-Split (o + w.port.memory.tx_size) left (i + 1)
                      (write_round bytes dl i w)
                      (record {
                        array = r.array1;
                        count = ap (λ m. m.tx_num) r.memory1 ∙ b.count;
                        size = ap (λ m. m.tx_size) r.memory1 ∙ b.size;
                        user_in = r.user_in1;
                        out = r.out1;
                        more = omega arith;
                      })
                      (omega arith) (omega arith)
                      (still-IsFree o w.port.memory.tx_size left w _ b r le b.size free))))
        ]
      where
        first : has (control_at w.port.tx_descriptors w.port.user_tx_desc) desc_cstop_bit ≡ true
        first =
            ap (λ (c : ℕ). has (control_at w.port.tx_descriptors c) desc_cstop_bit)
              (sym (mod-start w.port.user_tx_desc num b.user_in))
            ∙ free 0 (omega arith) (omega (arith, b.more))
