-- ===== src/File/Read.antt =====
-- main.c: fscc_read.
use fscc_linux.Prelude.{ℕ, List, [], ◌∷◌, Bool, if◌then◌else◌, ◌==◌}
use fscc_linux.Kernel.{Env, eagain, eopnotsupp, erestartsys, ok, err, truthy}
use fscc_linux.State.{Port}
use fscc_linux.Port.Access.{using_async}
use fscc_linux.Io.Ready.{user_read_ready}
use fscc_linux.Io.Read.{io_read}
use fscc_linux.File.Sleep.{
  Wake, interrupted, resumed, Outcome, returned, asleep, down_read, up_read,
}

-- One turn of the loop, with the semaphore held; `sleep` is what follows if it has to wait.
abbrev pub read_turn : Env → Bool → ℕ → Port → Outcome × Port → Outcome × Port
read_turn e nonblock count p sleep =
    if user_read_ready p
    then (let (r, p1) = io_read e count p in (returned r, up_read p1))
    else if nonblock
    then (returned (err eagain), up_read p)
    else sleep

-- Each wait takes two wakes, for the event and for the semaphore. A semaphore that is not free
-- then keeps the call asleep.
unfoldable pub read_wait : Env → Bool → ℕ → List Wake → Port → Outcome × Port
read_wait e nonblock count [] p = read_turn e nonblock count p (asleep, up_read p)
read_wait e nonblock count (interrupted ∷ wakes) p =
    read_turn e nonblock count p (returned (err erestartsys), up_read p)
read_wait e nonblock count (resumed f ∷ []) p = read_turn e nonblock count p (asleep, f (up_read p))
read_wait e nonblock count (resumed f ∷ interrupted ∷ wakes) p =
    read_turn e nonblock count p (returned (err erestartsys), f (up_read p))
read_wait e nonblock count (resumed f ∷ resumed g ∷ wakes) p =
    let p1 = g (f (up_read p)) in
    let rest = read_wait e nonblock count wakes (down_read p1) in
    read_turn e nonblock count p (if p1.read_semaphore == 0 then (asleep, p1) else rest)

unfoldable pub read_locked : Env → Bool → ℕ → List Wake → Port → Outcome × Port
read_locked e nonblock count [] p = (asleep, p)
read_locked e nonblock count (interrupted ∷ wakes) p = (returned (err erestartsys), p)
read_locked e nonblock count (resumed f ∷ wakes) p =
    if (f p).read_semaphore == 0
    then (asleep, f p)
    else read_wait e nonblock count wakes (down_read (f p))

unfoldable pub read : Env → Bool → ℕ → List Wake → Port → Outcome × Port
read e nonblock count wakes p =
    if count == 0
    then (returned (ok 0), p)
    else (let (async, p1) = using_async e p in
        if truthy async
        then (returned (err eopnotsupp), p1)
        else read_locked e nonblock count wakes p1)
