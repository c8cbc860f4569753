-- ===== src/Io/Frames/Made.antt =====
-- io.c: the frames that fscc_io_initialize makes.
use mathlib.Core.Path.{subst}
use fscc_linux.Prelude.{
  ℕ, zero, suc, ◌+◌, ◌≤◌, ◌<◌, ◌≡◌, refl, ap, ◌⊎◌, arith, List, ◌∷◌, Option, some, none, inl, inr,
  length, replicate, length-replicate,
}
use fscc_linux.Kernel.{Env, Pool, desc_pool, rx_buffer_pool, tx_buffer_pool}
use fscc_linux.State.{IoFrame, Port, frame_at}
use fscc_linux.Port.Access.Keeps.{Keeps, Keeps-refl, Keeps-trans}
use fscc_linux.Io.Frames.{block_size, create_buffer, create_frame, create_loop}

-- A frame, if there is one, has a buffer of that size.
abbrev HasBuffer : ℕ → Option IoFrame → Type 0
HasBuffer n none = Unit
HasBuffer n (some f) = length f.buffer ≡ n

length-zeros : (n : ℕ) → length (replicate n zero) ≡ n
length-zeros n = length-replicate n zero

create_buffer-HasBuffer :
    (e : Env) (pool : Pool) (address : ℕ) (p : Port)
    → HasBuffer (block_size pool p) (create_buffer e pool address p).0
unfolding create_buffer
create_buffer-HasBuffer e pool address p = ground (arith, length-zeros (block_size pool p))

create_frame-Keeps : (e : Env) (pool : Pool) (p : Port) → Keeps p (create_frame e pool p).1
unfolding create_buffer create_frame
create_frame-Keeps e pool p = ground arith

block_size-same : (pool : Pool) {p q : Port} → Keeps p q → block_size pool q ≡ block_size pool p
unfolding block_size
block_size-same rx_buffer_pool k = ap (λ m. m.rx_size) k.same_memory
block_size-same tx_buffer_pool k = ap (λ m. m.tx_size) k.same_memory
block_size-same desc_pool k = refl

create_frame-HasBuffer :
    (e : Env) (pool : Pool) (p : Port) → HasBuffer (block_size pool p) (create_frame e pool p).0
unfolding create_frame create_buffer block_size
create_frame-HasBuffer e rx_buffer_pool p = ground (arith, length-zeros p.memory.rx_size)
create_frame-HasBuffer e tx_buffer_pool p = ground (arith, length-zeros p.memory.tx_size)
create_frame-HasBuffer e desc_pool p = ground (arith, length-zeros 16)

Option-cases : {A : Type 0} (o : Option A) → (o ≡ none) ⊎ ((x : A) × (o ≡ some x))
Option-cases none = inl refl
Option-cases (some x) = inr (x, refl)

-- What the loop makes: no more frames than asked for, each with a buffer of the size `n`.
pub record IsMade (n most : ℕ) (frames : List IoFrame) : Type 0 where
  pub few : length frames ≤ most
  pub whole : (i : ℕ) → i < length frames → length (frame_at frames i).buffer ≡ n

pub create_loop-Keeps :
    (e : Env) (pool : Pool) (c i left : ℕ) (p : Port) → Keeps p (create_loop e pool c i left p).1
unfolding create_loop
create_loop-Keeps e pool c i zero p = Keeps-refl p
create_loop-Keeps e pool c i (suc left) p =
    let k = create_frame-Keeps e pool p in
    ground
      (arith, k, Keeps-trans k (create_loop-Keeps e pool c (i + 1) left (create_frame e pool p).1))

cons-IsMade :
    {n most : ℕ} {frames : List IoFrame}
    → (f : IoFrame) → length f.buffer ≡ n
    → IsMade n most frames
    → IsMade n (suc most) (f ∷ frames)
cons-IsMade {n} {most} {frames} f h m = record { few = omega (arith, m.few); whole = each }
  where
    each : (i : ℕ) → i < suc (length frames) → length (frame_at (f ∷ frames) i).buffer ≡ n
    each zero lt = h
    each (suc i) lt = m.whole i (omega arith)

pub create_loop-IsMade :
    (e : Env) (pool : Pool) (c i left : ℕ) (p : Port)
    → IsMade (block_size pool p) left (create_loop e pool c i left p).0
unfolding create_loop
create_loop-IsMade e pool c i zero p = record {
  few = omega arith;
  whole = λ j h. absurd (omega arith);
}
create_loop-IsMade e pool c i (suc left) p =
    let p1 = (create_frame e pool p).1 in
    let n = block_size pool p in
    elim (Option-cases (create_frame e pool p).0) [
      | inl none_left ↦
          rw (create_loop, none_left)
            (record { few = omega arith; whole = λ j h. absurd (omega arith) })
      | inr (f, made) ↦
          (let buffer : length f.buffer ≡ n =
              subst (HasBuffer n) made (create_frame-HasBuffer e pool p) in
            let rest : IsMade n left (create_loop e pool c (i + 1) left p1).0 =
              subst (λ m. IsMade m left (create_loop e pool c (i + 1) left p1).0)
                (block_size-same pool (create_frame-Keeps e pool p))
                (create_loop-IsMade e pool c (i + 1) left p1) in
            rw (create_loop, made) (cons-IsMade _ buffer rest))
    ]
