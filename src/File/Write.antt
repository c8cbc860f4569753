-- ===== src/File/Write.antt =====
-- main.c: fscc_write.
use fscc_linux.Prelude.{ℕ, ◌*◌, List, [], ◌∷◌, Bool, if◌then◌else◌, ltb, ◌==◌}
use fscc_linux.Kernel.{
  Env, eagain, enobufs, eopnotsupp, etimedout, erestartsys, Ret, ok, err, schedule,
  send_oframe_tasklet, truthy, u32,
}
use fscc_linux.State.{Port, emit}
use fscc_linux.Port.Access.{using_async, timed_out, is_dma}
use fscc_linux.Io.Ready.{user_get_tx_space}
use fscc_linux.Io.Write.{user_write_frame}
use fscc_linux.File.Sleep.{
  Wake, interrupted, resumed, Outcome, returned, asleep, down_write, up_write,
}

-- From fscc_user_write_frame on: the semaphore is released, and the FIFO is fed.
unfoldable pub write_frame : Env → List ℕ → ℕ → Port → Ret × Port
write_frame e buf count p =
    let (error_code, p1) = user_write_frame e buf count p in
    let p2 = up_write p1 in
    elim error_code [
      | err x ↦ (err x, p2)
      | ok n ↦ (ok count, if truthy (is_dma p2) then p2 else emit (schedule send_oframe_tasklet) p2)
    ]

-- What follows the loop, with the semaphore held.
unfoldable pub write_held : Env → List ℕ → ℕ → Port → Ret × Port
write_held e buf count p =
    if p.ignore_timeout == 0
    then (let (stalled, p1) = timed_out e p in
        if stalled then (err etimedout, p1) else write_frame e buf count p1)
    else write_frame e buf count p

-- One turn of the loop, with the semaphore held; `sleep` is what follows if it has to wait.
abbrev pub write_turn : Env → Bool → List ℕ → ℕ → Port → Outcome × Port → Outcome × Port
write_turn e nonblock buf count p sleep =
    if ltb (user_get_tx_space p) count
    then (if nonblock then (returned (err eagain), up_write p) else sleep)
    else (let (r, p1) = write_held e buf count p in (returned r, p1))

unfoldable pub write_wait : Env → Bool → List ℕ → ℕ → List Wake → Port → Outcome × Port
write_wait e nonblock buf count [] p = write_turn e nonblock buf count p (asleep, up_write p)
write_wait e nonblock buf count (interrupted ∷ wakes) p =
    write_turn e nonblock buf count p (returned (err erestartsys), up_write p)
write_wait e nonblock buf count (resumed f ∷ []) p =
    write_turn e nonblock buf count p (asleep, f (up_write p))
write_wait e nonblock buf count (resumed f ∷ interrupted ∷ wakes) p =
    write_turn e nonblock buf count p (returned (err erestartsys), f (up_write p))
write_wait e nonblock buf count (resumed f ∷ resumed g ∷ wakes) p =
    let p1 = g (f (up_write p)) in
    let rest = write_wait e nonblock buf count wakes (down_write p1) in
    write_turn e nonblock buf count p (if p1.write_semaphore == 0 then (asleep, p1) else rest)

unfoldable pub write_locked : Env → Bool → List ℕ → ℕ → List Wake → Port → Outcome × Port
write_locked e nonblock buf count [] p = (asleep, p)
write_locked e nonblock buf count (interrupted ∷ wakes) p = (returned (err erestartsys), p)
write_locked e nonblock buf count (resumed f ∷ wakes) p =
    if (f p).write_semaphore == 0
    then (asleep, f p)
    else write_wait e nonblock buf count wakes (down_write (f p))

unfoldable pub write : Env → Bool → List ℕ → ℕ → List Wake → Port → Outcome × Port
write e nonblock buf count wakes p =
    if count == 0
    then (returned (ok 0), p)
    else (let (async, p1) = using_async e p in
        if truthy async
        then (returned (err eopnotsupp), p1)
        else if ltb (u32 (p1.memory.tx_size * p1.memory.tx_num)) count
        then (returned (err enobufs), p1)
        else write_locked e nonblock buf count wakes p1)
