-- ===== src/System/Frames.antt =====
-- Changing one frame of the receive ring.
use fscc_linux.Prelude.{
  ℕ, ◌-◌, ◌*◌, ◌/◌, ◌%◌, ◌<◌, ◌≡◌, ◌≢◌, refl, sym, ap, ◌∙◌, arith, List, true, Bool-cases, inl, inr,
  ◌++◌, length, length-append, length-take, length-set, get_or-set_self, get_or-set_ne, set, ltb,
}
use native.Mathlib.Decide.{ℕ_discrete}
use fscc_linux.Kernel.{Env, Trace, length-fit, le_bytes, truthy}
use fscc_linux.State.{IoFrame, Port, frame_at, no_frame}
use fscc_linux.Utils.{port_offset}
use fscc_linux.Card
use fscc_linux.Port.Access.{get_register_rep}
use fscc_linux.Io.Ready.{stamp_rx, timestamp_is_empty}
use fscc_linux.Io.Ready.RxRing.{IsRxFrame, IsRxRing}

-- `q` is `p` but for the frame at `i`, which is `f` in `q`.
pub record IsUpdated (i : ℕ) (f : IoFrame) (p q : Port) : Type 0 where
  pub memory_same : q.memory ≡ p.memory
  pub user_same : q.user_rx_desc ≡ p.user_rx_desc
  pub fifo_same : q.fifo_rx_desc ≡ p.fifo_rx_desc
  pub updated : q.rx_descriptors ≡ set p.rx_descriptors i f

pub IsUpdated-IsRxRing :
    {i : ℕ} {f : IoFrame} {p q : Port}
    → IsUpdated i f p q
    → IsRxFrame p.memory.rx_size f
    → IsRxRing p
    → IsRxRing q
IsUpdated-IsRxRing {i} {f} {p} {q} u h v = record {
  array =
      ap length u.updated
      ∙ length-set p.rx_descriptors i f
      ∙ v.array
      ∙ sym (ap (λ m. m.rx_num) u.memory_same);
  few = rw u.memory_same v.few;
  some_size = rw u.memory_same v.some_size;
  small = rw u.memory_same v.small;
  user_in = rw (u.user_same, u.memory_same) v.user_in;
  fifo_in = rw (u.fifo_same, u.memory_same) v.fifo_in;
  frames = rw (u.updated, u.memory_same) at_index;
}
  where
    at_index :
        (j : ℕ)
        → j < p.memory.rx_num
        → IsRxFrame p.memory.rx_size (frame_at (set p.rx_descriptors i f) j)
    at_index j lt = elim (ℕ_discrete i j) [
      | yes same ↦
          (let e : frame_at (set p.rx_descriptors i f) j ≡ f =
              rw (sym same)
                (get_or-set_self p.rx_descriptors i f no_frame (omega (arith, v.array))) in
            rw e h)
      | no ne ↦ rw (get_or-set_ne p.rx_descriptors i j f no_frame ne) (v.frames j lt)
    ]

-- A time stamp changes nothing of the ring that matters.
pub stamp_rx-IsRxRing :
    (e : Env) (i : ℕ) (p : Port) → i < p.memory.rx_num → IsRxRing p → IsRxRing (stamp_rx e i p)
unfolding stamp_rx
stamp_rx-IsRxRing e i p lt v =
    elim (Bool-cases (timestamp_is_empty (frame_at p.rx_descriptors i).timestamp)) [
      | inl empty ↦ rw empty (
          IsUpdated-IsRxRing {p = p}
            (record { memory_same = refl; user_same = refl; fifo_same = refl; updated = refl })
            (let h = v.frames i lt in
              record { whole = h.whole; counted = h.counted; room = h.room })
            v)
      | inr stamped ↦ rw stamped v
    ]

length-chunks :
    (n : ℕ) (words rest : List ℕ)
    → length words ≡ 4 * ((n - n % 4) / 4)
    → length rest ≡ n % 4
    → length (words ++ rest) ≡ n
length-chunks n words rest h k = omega (arith, length-append words rest)

length-card_rep :
    (e : Env) (offset n : ℕ) (t : Trace)
    → ltb 0 n ≡ true
    → length (Card.get_register_rep e 0 offset n t).0 ≡ n
unfolding Card.get_register_rep
length-card_rep e offset n t pos = elim (Bool-cases (truthy (n % 4))) [
  | inl rest ↦
      rw (pos, rest)
        (length-chunks n _ _ (length-fit _ _) (length-take (n % 4) (le_bytes _) ∙ omega arith))
  | inr none_left ↦ rw (pos, none_left) (length-fit _ _ ∙ whole (ground arith))
]
  where
    whole : n % 4 ≡ 0 → 4 * ((n - n % 4) / 4) ≡ n
    whole z = omega arith

-- A repeated read gives as many bytes as are asked for.
pub length-get_register_rep :
    (e : Env) (offset n : ℕ) (p : Port) → n ≢ 0 → length (get_register_rep e 0 offset n p).0 ≡ n
unfolding get_register_rep
length-get_register_rep e offset n p ne =
    let pos : ltb 0 n ≡ true = ground arith in
    rw pos (length-card_rep e (port_offset p.channel 0 offset) n p.trace pos)
