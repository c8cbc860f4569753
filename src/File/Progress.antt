-- ===== src/File/Progress.antt =====
-- main.c: when fscc_read and fscc_write do not sleep on.
use fscc_linux.Prelude.{ℕ, arith, ◌≡◌, List, [], ◌∷◌, Bool, true, false, ◌==◌}
use fscc_linux.Kernel.{Env}
use fscc_linux.State.{Port}
use fscc_linux.Port.Access.{using_async}
use fscc_linux.File.Sleep.{
  Wake, interrupted, resumed, Outcome, returned, asleep, down_read, down_write,
}
use fscc_linux.File.Read.{read_wait, read_locked, read}
use fscc_linux.File.Write.{write_wait, write_locked, write}

abbrev pub is_returned : Outcome → Bool
is_returned (returned r) = true
is_returned asleep = false

read_wait-returned :
    (e : Env) (count : ℕ) (wakes : List Wake) (p : Port)
    → is_returned (read_wait e true count wakes p).0 ≡ true
unfolding read_wait
read_wait-returned e count [] p = ground arith
read_wait-returned e count (interrupted ∷ wakes) p = ground arith
read_wait-returned e count (resumed f ∷ []) p = ground arith
read_wait-returned e count (resumed f ∷ interrupted ∷ wakes) p = ground arith
read_wait-returned e count (resumed f ∷ resumed g ∷ wakes) p = ground arith

write_wait-returned :
    (e : Env) (buf : List ℕ) (count : ℕ) (wakes : List Wake) (p : Port)
    → is_returned (write_wait e true buf count wakes p).0 ≡ true
unfolding write_wait
write_wait-returned e buf count [] p = ground arith
write_wait-returned e buf count (interrupted ∷ wakes) p = ground arith
write_wait-returned e buf count (resumed f ∷ []) p = ground arith
write_wait-returned e buf count (resumed f ∷ interrupted ∷ wakes) p = ground arith
write_wait-returned e buf count (resumed f ∷ resumed g ∷ wakes) p = ground arith

-- A non-blocking fscc_read, and a non-blocking fscc_write, returns if the wait for its semaphore
-- ends, by a signal or with the semaphore free: it never sleeps for data or space, whatever the others do. `f` is what
-- they do during that wait.
pub nonblocking-returned :
    (e : Env) (buf : List ℕ) (count : ℕ) (f : Port → Port) (wakes : List Wake) (p : Port)
    → ((f (using_async e p).1).read_semaphore == 0) ≡ false
    → ((f (using_async e p).1).write_semaphore == 0) ≡ false
    → (is_returned (read e true count (resumed f ∷ wakes) p).0 ≡ true)
      × (is_returned (write e true buf count (resumed f ∷ wakes) p).0 ≡ true)
      × (is_returned (read e true count (interrupted ∷ wakes) p).0 ≡ true)
      × (is_returned (write e true buf count (interrupted ∷ wakes) p).0 ≡ true)
unfolding read write read_locked write_locked
nonblocking-returned e buf count f wakes p free_read free_write = ground (
  arith,
  free_read,
  free_write,
  read_wait-returned e count wakes (down_read (f (using_async e p).1)),
  write_wait-returned e buf count wakes (down_write (f (using_async e p).1)),
)
