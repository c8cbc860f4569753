-- ===== src/System/Calls.antt =====
-- main.c: fscc_read and fscc_write as sequences of the steps, with the steps of the others where
-- the call sleeps.
use fscc_linux.Prelude.{
  ℕ, ◌*◌, List, [], ◌∷◌, Bool, true, false, Bool-cases, inl, inr, ◌==◌, ltb, if◌then◌else◌,
}
use fscc_linux.Kernel.{Env, err, eagain, truthy, u32}
use fscc_linux.State.{Port}
use fscc_linux.Port.Access.{using_async}
use fscc_linux.Io.Ready.{user_read_ready, user_get_tx_space}
use fscc_linux.File.Sleep.{
  Wake, interrupted, resumed, Outcome, returned, asleep, down_read, up_read, down_write, up_write,
}
use fscc_linux.File.Read.{read_turn, read_wait, read_locked, read}
use fscc_linux.File.Write.{write_turn, write_wait, write_locked, write}
use fscc_linux.System.Reach.{
  takes_read, reads, gives_up_reading, takes_write, writes, gives_up_writing, refreshes, Reach,
  here, then_step,
}

-- The others only do steps while the call sleeps.
abbrev pub Others : Env → List Wake → Type 0
Others e [] = Unit
Others e (interrupted ∷ wakes) = Others e wakes
Others e (resumed f ∷ wakes) = ((p : Port) → Reach e p (f p)) × Others e wakes

Reach-trans : {e : Env} {p q r : Port} → Reach e p q → Reach e q r → Reach e p r
Reach-trans h here = h
Reach-trans h (then_step k s) = then_step (Reach-trans h k) s

-- A call that sleeps on.
abbrev sleeping : Port → Outcome × Port
sleeping p = (asleep, p)

read_turn-Reach :
    (e : Env) (nonblock : Bool) (count : ℕ) (o p : Port) (sleep : Outcome × Port)
    → Reach e o p
    → Reach e o sleep.1
    → Reach e o (read_turn e nonblock count p sleep).1
read_turn-Reach e nonblock count o p sleep h k = elim (Bool-cases (user_read_ready p)) [
  | inl ready ↦ rw ready (then_step h (reads count p))
  | inr not_ready ↦ rw not_ready (blocked nonblock)
]
  where
    given_up : Outcome × Port
    given_up = (returned (err eagain), up_read p)

    blocked : (b : Bool) → Reach e o (if b then given_up else sleep).1
    blocked true = then_step h (gives_up_reading p)
    blocked false = k

retried_read-Reach :
    (e : Env) (o p : Port) (rest : Outcome × Port)
    → Reach e o p
    → Reach e o rest.1
    → Reach e o (if p.read_semaphore == 0 then sleeping p else rest).1
retried_read-Reach e o p rest h k = elim (Bool-cases (p.read_semaphore == 0)) [
  | inl taken ↦ rw taken h
  | inr free ↦ rw free k
]

read_wait-Reach :
    (e : Env) (nonblock : Bool) (count : ℕ) (wakes : List Wake) (o p : Port)
    → Others e wakes
    → Reach e o p
    → Reach e o (read_wait e nonblock count wakes p).1
unfolding read_wait
read_wait-Reach e nonblock count [] o p c h =
    read_turn-Reach e nonblock count o p _ h (then_step h (gives_up_reading p))
read_wait-Reach e nonblock count (interrupted ∷ wakes) o p c h =
    read_turn-Reach e nonblock count o p _ h (then_step h (gives_up_reading p))
read_wait-Reach e nonblock count (resumed f ∷ []) o p c h =
    read_turn-Reach e nonblock count o p _ h
      (Reach-trans (then_step h (gives_up_reading p)) (c.0 (up_read p)))
read_wait-Reach e nonblock count (resumed f ∷ interrupted ∷ wakes) o p c h =
    read_turn-Reach e nonblock count o p _ h
      (Reach-trans (then_step h (gives_up_reading p)) (c.0 (up_read p)))
read_wait-Reach e nonblock count (resumed f ∷ resumed g ∷ wakes) o p c h =
    let given = Reach-trans (then_step h (gives_up_reading p)) (c.0 (up_read p)) in
    let later = Reach-trans given (c.1.0 (f (up_read p))) in
    read_turn-Reach e nonblock count o p _ h (
      retried_read-Reach e o (g (f (up_read p))) _ later (
        read_wait-Reach e nonblock count wakes o (down_read (g (f (up_read p)))) c.1.1
          (then_step later (takes_read (g (f (up_read p)))))))

read_locked-Reach :
    (e : Env) (nonblock : Bool) (count : ℕ) (wakes : List Wake) (o p : Port)
    → Others e wakes
    → Reach e o p
    → Reach e o (read_locked e nonblock count wakes p).1
unfolding read_locked
read_locked-Reach e nonblock count [] o p c h = h
read_locked-Reach e nonblock count (interrupted ∷ wakes) o p c h = h
read_locked-Reach e nonblock count (resumed f ∷ wakes) o p c h =
    let woken = Reach-trans h (c.0 p) in
    retried_read-Reach e o (f p) _ woken (
      read_wait-Reach e nonblock count wakes o (down_read (f p)) c.1
        (then_step woken (takes_read (f p))))

write_turn-Reach :
    (e : Env) (nonblock : Bool) (buf : List ℕ) (count : ℕ) (o p : Port) (sleep : Outcome × Port)
    → Reach e o p
    → Reach e o sleep.1
    → Reach e o (write_turn e nonblock buf count p sleep).1
write_turn-Reach e nonblock buf count o p sleep h k =
    elim (Bool-cases (ltb (user_get_tx_space p) count)) [
      | inl full ↦ rw full (blocked nonblock)
      | inr room ↦ rw room (then_step h (writes buf count p))
    ]
  where
    given_up : Outcome × Port
    given_up = (returned (err eagain), up_write p)

    blocked : (b : Bool) → Reach e o (if b then given_up else sleep).1
    blocked true = then_step h (gives_up_writing p)
    blocked false = k

retried_write-Reach :
    (e : Env) (o p : Port) (rest : Outcome × Port)
    → Reach e o p
    → Reach e o rest.1
    → Reach e o (if p.write_semaphore == 0 then sleeping p else rest).1
retried_write-Reach e o p rest h k = elim (Bool-cases (p.write_semaphore == 0)) [
  | inl taken ↦ rw taken h
  | inr free ↦ rw free k
]

write_wait-Reach :
    (e : Env) (nonblock : Bool) (buf : List ℕ) (count : ℕ) (wakes : List Wake) (o p : Port)
    → Others e wakes
    → Reach e o p
    → Reach e o (write_wait e nonblock buf count wakes p).1
unfolding write_wait
write_wait-Reach e nonblock buf count [] o p c h =
    write_turn-Reach e nonblock buf count o p _ h (then_step h (gives_up_writing p))
write_wait-Reach e nonblock buf count (interrupted ∷ wakes) o p c h =
    write_turn-Reach e nonblock buf count o p _ h (then_step h (gives_up_writing p))
write_wait-Reach e nonblock buf count (resumed f ∷ []) o p c h =
    write_turn-Reach e nonblock buf count o p _ h
      (Reach-trans (then_step h (gives_up_writing p)) (c.0 (up_write p)))
write_wait-Reach e nonblock buf count (resumed f ∷ interrupted ∷ wakes) o p c h =
    write_turn-Reach e nonblock buf count o p _ h
      (Reach-trans (then_step h (gives_up_writing p)) (c.0 (up_write p)))
write_wait-Reach e nonblock buf count (resumed f ∷ resumed g ∷ wakes) o p c h =
    let given = Reach-trans (then_step h (gives_up_writing p)) (c.0 (up_write p)) in
    let later = Reach-trans given (c.1.0 (f (up_write p))) in
    write_turn-Reach e nonblock buf count o p _ h (
      retried_write-Reach e o (g (f (up_write p))) _ later (
        write_wait-Reach e nonblock buf count wakes o (down_write (g (f (up_write p)))) c.1.1
          (then_step later (takes_write (g (f (up_write p)))))))

write_locked-Reach :
    (e : Env) (nonblock : Bool) (buf : List ℕ) (count : ℕ) (wakes : List Wake) (o p : Port)
    → Others e wakes
    → Reach e o p
    → Reach e o (write_locked e nonblock buf count wakes p).1
unfolding write_locked
write_locked-Reach e nonblock buf count [] o p c h = h
write_locked-Reach e nonblock buf count (interrupted ∷ wakes) o p c h = h
write_locked-Reach e nonblock buf count (resumed f ∷ wakes) o p c h =
    let woken = Reach-trans h (c.0 p) in
    retried_write-Reach e o (f p) _ woken (
      write_wait-Reach e nonblock buf count wakes o (down_write (f p)) c.1
        (then_step woken (takes_write (f p))))

-- If the others only do steps of theirs while fscc_read sleeps, all that has happened when it
-- returns, or sleeps on, is a sequence of such steps.
pub read-Reach :
    (e : Env) (nonblock : Bool) (count : ℕ) (wakes : List Wake) (p : Port)
    → Others e wakes
    → Reach e p (read e nonblock count wakes p).1
unfolding read
read-Reach e nonblock count wakes p c = elim (Bool-cases (count == 0)) [
  | inl none_asked ↦ rw none_asked here
  | inr asked ↦ rw asked (elim (Bool-cases (truthy (using_async e p).0)) [
    | inl async ↦ rw async refreshed
    | inr sync ↦
        rw sync (read_locked-Reach e nonblock count wakes p (using_async e p).1 c refreshed)
  ])
]
  where
    refreshed : Reach e p (using_async e p).1
    refreshed = then_step here (refreshes p)

-- If the others only do steps of theirs while fscc_write sleeps, all that has happened when it
-- returns, or sleeps on, is a sequence of such steps.
pub write-Reach :
    (e : Env) (nonblock : Bool) (buf : List ℕ) (count : ℕ) (wakes : List Wake) (p : Port)
    → Others e wakes
    → Reach e p (write e nonblock buf count wakes p).1
unfolding write
write-Reach e nonblock buf count wakes p c = elim (Bool-cases (count == 0)) [
  | inl none_given ↦ rw none_given here
  | inr given ↦ rw given (elim (Bool-cases (truthy (using_async e p).0)) [
    | inl async ↦ rw async refreshed
    | inr sync ↦ rw sync (elim (Bool-cases (ltb (u32 (q.memory.tx_size * q.memory.tx_num)) count)) [
      | inl over ↦ rw over refreshed
      | inr fits ↦ rw fits (write_locked-Reach e nonblock buf count wakes p q c refreshed)
    ])
  ])
]
  where
    q : Port
    q = (using_async e p).1

    refreshed : Reach e p q
    refreshed = then_step here (refreshes p)
