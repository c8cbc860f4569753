-- ===== src/File/Semaphores.antt =====
-- main.c: the semaphores of fscc_read and fscc_write when they return.
use fscc_linux.Prelude.{
  ℕ, zero, suc, ◌+◌, ◌-◌, ◌*◌, ◌≡◌, ◌≢◌, refl, ◌∙◌, arith, ◌⊎◌, inl, inr, List, [], ◌∷◌, Bool, true,
  false, Bool-cases, ltb, ◌==◌, if◌then◌else◌, take,
}
use mathlib.Core.Path.{subst}
use fscc_linux.Kernel.{
  Env, Ret, ok, err, eagain, enobufs, etimedout, kzalloc, spin_unlock, tx_lock, fit, truthy, u32,
}
use fscc_linux.State.{Port, emit}
use fscc_linux.Port.Access.{using_async, timed_out}
use fscc_linux.Port.Access.Keeps.{timed_out-Keeps, get_register-Keeps}
use fscc_linux.Io.Ready.{user_get_tx_space}
use fscc_linux.Io.Write.{Writing, write_round, write_loop, user_write_frame}
use fscc_linux.Io.Write.Frame.{start_dma-Keeps, started}
use fscc_linux.File.Sleep.{Wake, interrupted, resumed, Outcome, returned, asleep}
use fscc_linux.File.Sleep.{up_write, down_write}
use fscc_linux.File.Write.{write_turn, write_frame, write_held, write_wait, write_locked, write}

-- What the others do during a wait leaves the count of a semaphore as it was.
abbrev pub Calm : (Port → ℕ) → List Wake → Type 0
Calm count [] = Unit
Calm count (interrupted ∷ wakes) = Calm count wakes
Calm count (resumed f ∷ wakes) = ((p : Port) → count (f p) ≡ count p) × Calm count wakes

-- The loop of fscc_user_write_frame keeps the semaphores, and fails with ENOBUFS only.
write_loop-semaphore :
    (bytes : List ℕ) (n i left : ℕ) (w : Writing)
    → ((write_loop bytes n i left w).port.write_semaphore ≡ w.port.write_semaphore)
      × (((write_loop bytes n i left w).status ≡ w.status)
          ⊎ ((write_loop bytes n i left w).status ≡ err enobufs))
unfolding write_loop write_round
write_loop-semaphore bytes n i zero w = ground arith
write_loop-semaphore bytes n i (suc left) w =
    ground (arith, write_loop-semaphore bytes n (i + 1) left (write_round bytes n i w))

user_write_frame-semaphore :
    (e : Env) (buf : List ℕ) (n : ℕ) (p : Port)
    → ((user_write_frame e buf n p).1.write_semaphore ≡ p.write_semaphore)
      × (((user_write_frame e buf n p).0 ≡ ok 0) ⊎ ((user_write_frame e buf n p).0 ≡ err enobufs))
unfolding user_write_frame
user_write_frame-semaphore e buf n p = elim (Bool-cases (e.allocates p.trace n)) [
  | inl given ↦
      (let bytes = fit n (take (n - e.copy_unmoved (kzalloc n ∷ p.trace) n) buf) in
        let w = write_loop bytes n 0 p.memory.tx_num (started n p) in
        let loop = write_loop-semaphore bytes n 0 p.memory.tx_num (started n p) in
        rw given (
          (start_dma-Keeps e w.start_desc (emit (spin_unlock tx_lock) w.port)).same_write_semaphore
              ∙ loop.0,
          loop.1,
        ))
  | inr refused ↦ rw refused (refl, inl refl)
]

-- The semaphores that a call holds on to when it returns.
abbrev pub still_held : Ret → ℕ
still_held (err etimedout) = 1
still_held _ = 0

abbrev pub Balanced : ℕ → Outcome × Port → Type 0
Balanced n (returned r, q) = q.write_semaphore + still_held r ≡ n
Balanced n (asleep, q) = Unit

write_held-Balanced :
    (e : Env) (buf : List ℕ) (n : ℕ) (p : Port)
    → (write_held e buf n p).1.write_semaphore + still_held (write_held e buf n p).0
      ≡ p.write_semaphore + 1
unfolding write_held write_frame
write_held-Balanced e buf n p = ground (
  arith,
  timed_out-Keeps e p,
  user_write_frame-semaphore e buf n p,
  user_write_frame-semaphore e buf n (timed_out e p).1,
)

write_turn-Balanced :
    (e : Env) (nonblock : Bool) (buf : List ℕ) (count : ℕ) (p : Port) (sleep : Outcome × Port)
    → Balanced (p.write_semaphore + 1) sleep
    → Balanced (p.write_semaphore + 1) (write_turn e nonblock buf count p sleep)
write_turn-Balanced e nonblock buf count p sleep h =
    elim (Bool-cases (ltb (user_get_tx_space p) count)) [
      | inl full ↦ rw full (blocked nonblock)
      | inr room ↦ rw room (write_held-Balanced e buf count p)
    ]
  where
    blocked :
        (b : Bool)
        → Balanced
            (p.write_semaphore + 1)
            (if b then (returned (err eagain), up_write p) else sleep)
    blocked true = omega arith
    blocked false = h

-- With the semaphore held, `p` has one less than at the call.
write_wait-Balanced :
    (e : Env) (nonblock : Bool) (buf : List ℕ) (count : ℕ) (wakes : List Wake) (p : Port)
    → Calm (λ q. q.write_semaphore) wakes
    → Balanced (p.write_semaphore + 1) (write_wait e nonblock buf count wakes p)
unfolding write_wait
write_wait-Balanced e nonblock buf count [] p c = write_turn-Balanced e nonblock buf count p _ tt
write_wait-Balanced e nonblock buf count (interrupted ∷ wakes) p c =
    write_turn-Balanced e nonblock buf count p _ (omega arith)
write_wait-Balanced e nonblock buf count (resumed f ∷ []) p c =
    write_turn-Balanced e nonblock buf count p _ tt
write_wait-Balanced e nonblock buf count (resumed f ∷ interrupted ∷ wakes) p c =
    write_turn-Balanced e nonblock buf count p _ (omega (arith, c.0 (up_write p)))
write_wait-Balanced e nonblock buf count (resumed f ∷ resumed g ∷ wakes) p c =
    write_turn-Balanced e nonblock buf count p _ (
      retried (g (f (up_write p))) (omega (arith, c.0 (up_write p), c.1.0 (f (up_write p))))
        (write_wait-Balanced e nonblock buf count wakes (down_write (g (f (up_write p)))) c.1.1))
  where
    retried :
        (p1 : Port)
        → p1.write_semaphore ≡ p.write_semaphore + 1
        → Balanced
            (p1.write_semaphore - 1 + 1)
            (write_wait e nonblock buf count wakes (down_write p1))
        → Balanced (p.write_semaphore + 1) (
            if p1.write_semaphore == 0
            then (asleep, p1)
            else write_wait e nonblock buf count wakes (down_write p1))
    retried p1 same rest = elim (Bool-cases (p1.write_semaphore == 0)) [
      | inl none_left ↦ rw none_left tt
      | inr some_left ↦ rw some_left (
          subst (λ n. Balanced n (write_wait e nonblock buf count wakes (down_write p1)))
            (omega arith) rest)
    ]

write_locked-Balanced :
    (e : Env) (nonblock : Bool) (buf : List ℕ) (count : ℕ) (wakes : List Wake) (p : Port)
    → Calm (λ q. q.write_semaphore) wakes
    → Balanced p.write_semaphore (write_locked e nonblock buf count wakes p)
unfolding write_locked
write_locked-Balanced e nonblock buf count [] p c = tt
write_locked-Balanced e nonblock buf count (interrupted ∷ wakes) p c = omega arith
write_locked-Balanced e nonblock buf count (resumed f ∷ wakes) p c =
    elim (Bool-cases ((f p).write_semaphore == 0)) [
      | inl none_left ↦ rw none_left tt
      | inr some_left ↦ rw some_left (
          subst (λ n. Balanced n (write_wait e nonblock buf count wakes (down_write (f p))))
            (omega (arith, c.0 p, ne_zero (f p).write_semaphore some_left))
            (write_wait-Balanced e nonblock buf count wakes (down_write (f p)) c.1))
    ]
  where
    ne_zero : (n : ℕ) → (n == 0) ≡ false → n ≢ 0
    ne_zero n h = ground arith

using_async-semaphore :
    (e : Env) (p : Port) → (using_async e p).1.write_semaphore ≡ p.write_semaphore
unfolding using_async
using_async-semaphore e p = ground (arith, get_register-Keeps e 2 0 p)

-- However fscc_write returns, the write semaphore has the count that it had at the call, with one
-- exception: after ETIMEDOUT it is still held. (While the call sleeps, the others leave the count as
-- they find it.)
pub write-Balanced :
    (e : Env) (nonblock : Bool) (buf : List ℕ) (count : ℕ) (wakes : List Wake) (p : Port)
    → Calm (λ q. q.write_semaphore) wakes
    → Balanced p.write_semaphore (write e nonblock buf count wakes p)
unfolding write
write-Balanced e nonblock buf count wakes p c = elim (Bool-cases (count == 0)) [
  | inl none_asked ↦ rw none_asked (omega arith)
  | inr asked ↦ rw asked (elim (Bool-cases (truthy (using_async e p).0)) [
    | inl async ↦ rw async (omega (arith, using_async-semaphore e p))
    | inr sync ↦ rw sync (bounded (using_async e p).1 (using_async-semaphore e p))
  ])
]
  where
    bounded :
        (p1 : Port)
        → p1.write_semaphore ≡ p.write_semaphore
        → Balanced p.write_semaphore (
            if ltb (u32 (p1.memory.tx_size * p1.memory.tx_num)) count
            then (returned (err enobufs), p1)
            else write_locked e nonblock buf count wakes p1)
    bounded p1 same = elim (Bool-cases (ltb (u32 (p1.memory.tx_size * p1.memory.tx_num)) count)) [
      | inl large ↦ rw large (omega arith)
      | inr fits ↦ rw fits (
          subst (λ n. Balanced n (write_locked e nonblock buf count wakes p1)) same
            (write_locked-Balanced e nonblock buf count wakes p1 c))
    ]
