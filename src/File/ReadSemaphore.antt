-- ===== src/File/ReadSemaphore.antt =====
-- main.c: the semaphore of fscc_read when it returns.
use fscc_linux.Prelude.{
  ℕ, ◌+◌, ◌≡◌, ◌≢◌, refl, ◌∙◌, arith, List, [], ◌∷◌, Bool, true, false, Bool-cases, inl, inr, ◌==◌,
  if◌then◌else◌,
}
use mathlib.Core.Path.{subst}
use fscc_linux.Kernel.{Env, err, eagain, truthy}
use fscc_linux.State.{Port}
use fscc_linux.Port.Access.{using_async}
use fscc_linux.Port.Access.Keeps.{get_register-Keeps}
use fscc_linux.Io.Ready.{user_read_ready}
use fscc_linux.Io.Read.Kept.{io_read-kept}
use fscc_linux.File.Sleep.{
  Wake, interrupted, resumed, Outcome, returned, asleep, up_read, down_read,
}
use fscc_linux.File.Read.{read_turn, read_wait, read_locked, read}
use fscc_linux.File.Semaphores.{Calm}

-- The semaphore has the count `n`, if the call has returned.
abbrev pub IsFreed : ℕ → Outcome × Port → Type 0
IsFreed n (returned r, q) = q.read_semaphore ≡ n
IsFreed n (asleep, q) = Unit

read_turn-IsFreed :
    (e : Env) (nonblock : Bool) (count : ℕ) (p : Port) (sleep : Outcome × Port)
    → IsFreed (p.read_semaphore + 1) sleep
    → IsFreed (p.read_semaphore + 1) (read_turn e nonblock count p sleep)
read_turn-IsFreed e nonblock count p sleep h = elim (Bool-cases (user_read_ready p)) [
  | inl ready ↦ rw ready (omega (arith, io_read-kept e count p))
  | inr not_ready ↦ rw not_ready (blocked nonblock)
]
  where
    blocked :
        (b : Bool)
        → IsFreed (p.read_semaphore + 1) (if b then (returned (err eagain), up_read p) else sleep)
    blocked true = refl
    blocked false = h

-- A semaphore that is taken after a wait, or is not free.
retried-IsFreed :
    (n : ℕ) (p : Port) (rest : Outcome × Port)
    → p.read_semaphore ≡ n
    → IsFreed ((down_read p).read_semaphore + 1) rest
    → IsFreed n (if p.read_semaphore == 0 then (asleep, p) else rest)
retried-IsFreed n p rest same h = elim (Bool-cases (p.read_semaphore == 0)) [
  | inl none_left ↦ rw none_left tt
  | inr some_left ↦
      rw some_left
        (subst (λ m. IsFreed m rest) (omega (arith, ne_zero p.read_semaphore some_left, same)) h)
]
  where
    ne_zero : (m : ℕ) → (m == 0) ≡ false → m ≢ 0
    ne_zero m h = ground arith

-- With the semaphore held, `p` has one less than at the call.
read_wait-IsFreed :
    (e : Env) (nonblock : Bool) (count : ℕ) (wakes : List Wake) (p : Port)
    → Calm (λ q. q.read_semaphore) wakes
    → IsFreed (p.read_semaphore + 1) (read_wait e nonblock count wakes p)
unfolding read_wait
read_wait-IsFreed e nonblock count [] p c = read_turn-IsFreed e nonblock count p _ tt
read_wait-IsFreed e nonblock count (interrupted ∷ wakes) p c =
    read_turn-IsFreed e nonblock count p _ refl
read_wait-IsFreed e nonblock count (resumed f ∷ []) p c = read_turn-IsFreed e nonblock count p _ tt
read_wait-IsFreed e nonblock count (resumed f ∷ interrupted ∷ wakes) p c =
    read_turn-IsFreed e nonblock count p _ (c.0 (up_read p))
read_wait-IsFreed e nonblock count (resumed f ∷ resumed g ∷ wakes) p c =
    read_turn-IsFreed e nonblock count p _ (
      retried-IsFreed (p.read_semaphore + 1) (g (f (up_read p))) _
        (c.1.0 (f (up_read p)) ∙ c.0 (up_read p))
        (read_wait-IsFreed e nonblock count wakes (down_read (g (f (up_read p)))) c.1.1))

read_locked-IsFreed :
    (e : Env) (nonblock : Bool) (count : ℕ) (wakes : List Wake) (p : Port)
    → Calm (λ q. q.read_semaphore) wakes
    → IsFreed p.read_semaphore (read_locked e nonblock count wakes p)
unfolding read_locked
read_locked-IsFreed e nonblock count [] p c = tt
read_locked-IsFreed e nonblock count (interrupted ∷ wakes) p c = refl
read_locked-IsFreed e nonblock count (resumed f ∷ wakes) p c =
    retried-IsFreed p.read_semaphore (f p) _ (c.0 p)
      (read_wait-IsFreed e nonblock count wakes (down_read (f p)) c.1)

using_async-kept : (e : Env) (p : Port) → (using_async e p).1.read_semaphore ≡ p.read_semaphore
unfolding using_async
using_async-kept e p = ground (arith, get_register-Keeps e 2 0 p)

-- Whenever fscc_read returns, the read semaphore has the count that it had at the call. (While the
-- call sleeps, the others leave the count as they find it.)
pub read-IsFreed :
    (e : Env) (nonblock : Bool) (count : ℕ) (wakes : List Wake) (p : Port)
    → Calm (λ q. q.read_semaphore) wakes
    → IsFreed p.read_semaphore (read e nonblock count wakes p)
unfolding read
read-IsFreed e nonblock count wakes p c = elim (Bool-cases (count == 0)) [
  | inl none_asked ↦ rw none_asked refl
  | inr asked ↦ rw asked (elim (Bool-cases (truthy (using_async e p).0)) [
    | inl async ↦ rw async (using_async-kept e p)
    | inr sync ↦ rw sync (
        subst (λ n. IsFreed n (read_locked e nonblock count wakes (using_async e p).1))
          (using_async-kept e p) (read_locked-IsFreed e nonblock count wakes (using_async e p).1 c))
  ])
]
