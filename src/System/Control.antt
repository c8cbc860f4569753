-- ===== src/System/Control.antt =====
-- main.c: fscc_ioctl, and isr.c, and the two rings.
use fscc_linux.Prelude.{
  ℕ, ◌+◌, ◌*◌, ◌≡◌, ◌∙◌, arith, List, [], ◌∷◌, Bool, Bool-cases, inl, inr, ◌==◌, if◌then◌else◌,
  ◌||◌,
}
use fscc_linux.Kernel.{
  Env, Event, kzalloc, spin_lock, spin_unlock, settings_lock, rx_lock, tx_lock, u32,
}
use fscc_linux.Offsets.{fcr_offset}
use fscc_linux.State.{Port, emit}
use fscc_linux.Card
use fscc_linux.Port.Access.{get_pdev, get_prev}
use fscc_linux.Port.Access.Keeps.{
  Keeps, Keeps-refl, Keeps-trans, get_register-Keeps, set_register-Keeps, set_register_rep-Keeps,
}
use fscc_linux.Port.Registers.{get_one, get_from, set_one, set_from}
use fscc_linux.Port.Clock.{set_clock_bits}
use fscc_linux.Io.Dma.{execute_tres, execute_rres}
use fscc_linux.Io.Dma.Keeps.{execute_tres-Keeps, execute_rres-Keeps}
use fscc_linux.Io.Purge.{stop_tx, stop_rx, point_rx, reset_tx, reset_rx, purge_tx, purge_rx}
use fscc_linux.Io.Purge.Keeps.{
  stop_tx-Keeps, stop_rx-Keeps, point_tx-Keeps, point_rx-Keeps, start_rx-Keeps,
}
use fscc_linux.System.Same.{SameTx, SameRx, Keeps-SameTx, Keeps-SameRx}

get_one-Keeps : (e : Env) (i value : ℕ) (p : Port) → Keeps p (get_one e i value p).1
unfolding get_one
get_one-Keeps e i value p =
    ground
      (arith, Keeps-refl p, get_register-Keeps e 0 (i * 4) p, get_register-Keeps e 2 fcr_offset p)

pub get_from-Keeps : (e : Env) (i : ℕ) (regs : List ℕ) (p : Port) → Keeps p (get_from e i regs p).1
unfolding get_from
get_from-Keeps e i [] p = Keeps-refl p
get_from-Keeps e i (value ∷ regs) p =
    Keeps-trans (get_one-Keeps e i value p) (get_from-Keeps e (i + 1) regs (get_one e i value p).1)

set_one-Keeps : (e : Env) (i value : ℕ) (p : Port) → Keeps p (set_one e i value p).1
unfolding set_one
set_one-Keeps e i value p = ground (
  arith,
  Keeps-refl p,
  set_register-Keeps e 0 (i * 4) (u32 value) p,
  set_register-Keeps e 2 fcr_offset (u32 value) p,
)

pub set_from-Keeps :
    (e : Env) (i : ℕ) (regs : List ℕ) (stalled : Bool) (p : Port)
    → Keeps p (set_from e i regs stalled p).1
unfolding set_from
set_from-Keeps e i [] stalled p = Keeps-refl p
set_from-Keeps e i (value ∷ regs) stalled p =
    Keeps-trans (set_one-Keeps e i value p)
      (set_from-Keeps e (i + 1) regs ((set_one e i value p).0 || stalled) (set_one e i value p).1)

get_pdev-Keeps : (e : Env) (p : Port) → Keeps p (get_pdev e p).1
unfolding get_pdev
get_pdev-Keeps e p = get_register-Keeps e 0 _ p

pub get_prev-Keeps : (e : Env) (p : Port) → Keeps p (get_prev e p).1
unfolding get_prev
get_prev-Keeps e p = get_register-Keeps e 0 _ p

traced-Keeps : (t : List Event) (p : Port) → Keeps p (record p { trace = t })
traced-Keeps t p = ground arith

pub set_clock_bits-Keeps :
    (e : Env) (clock : List ℕ) (p : Port) → Keeps p (set_clock_bits e clock p)
unfolding set_clock_bits
set_clock_bits-Keeps e clock p = elim (Bool-cases (e.allocates (version.1).trace (4 * 323))) [
  | inr refused ↦ rw refused (Keeps-trans before (traced-Keeps _ version.1))
  | inl given ↦ rw given (
      Keeps-trans before (
        Keeps-trans (traced-Keeps _ version.1) (
          Keeps-trans
            (set_register_rep-Keeps 2 fcr_offset _ _ (record (version.1) { trace = read.1 }))
            (traced-Keeps _ _))))
]
  where
    version : ℕ × Port
    version =
        if (get_pdev e p).0 == 0x0f then get_prev e (get_pdev e p).1 else (0, (get_pdev e p).1)

    read : ℕ × List Event
    read =
        Card.get_register e 2 fcr_offset
          (spin_lock settings_lock ∷ kzalloc (4 * 323) ∷ (version.1).trace)

    before : Keeps p version.1
    before =
        Keeps-trans (get_pdev-Keeps e p)
          (ground (arith, Keeps-refl (get_pdev e p).1, get_prev-Keeps e (get_pdev e p).1))

pub purge_tx-SameRx : (e : Env) (p : Port) → SameRx p (purge_tx e p).1
unfolding purge_tx reset_tx
purge_tx-SameRx e p =
    let locked = emit (spin_lock tx_lock) p in
    let before = Keeps-trans (stop_tx-Keeps e locked) (execute_tres-Keeps e (stop_tx e locked)) in
    let after = point_tx-Keeps e (reset_tx (execute_tres e (stop_tx e locked))) in
    ground (arith, Keeps-SameRx before, Keeps-SameRx after)

pub purge_rx-SameTx : (e : Env) (p : Port) → SameTx p (purge_rx e p).1
unfolding purge_rx reset_rx
purge_rx-SameTx e p =
    let locked = emit (spin_lock rx_lock) p in
    let before = Keeps-trans (stop_rx-Keeps e locked) (execute_rres-Keeps e (stop_rx e locked)) in
    let reset = reset_rx (execute_rres e (stop_rx e locked)) in
    let pointed = point_rx-Keeps e reset in
    let started = start_rx-Keeps e (emit (spin_unlock rx_lock) (point_rx e reset)) in
    ground (arith, Keeps-SameTx before, Keeps-SameTx pointed, Keeps-SameTx started)

-- The semaphores of a port are those of another.
pub record SameSemaphores (p q : Port) : Type 0 where
  pub read_same : q.read_semaphore ≡ p.read_semaphore
  pub write_same : q.write_semaphore ≡ p.write_semaphore

pub purge_tx-SameSemaphores : (e : Env) (p : Port) → SameSemaphores p (purge_tx e p).1
unfolding purge_tx reset_tx
purge_tx-SameSemaphores e p =
    let locked = emit (spin_lock tx_lock) p in
    let before = Keeps-trans (stop_tx-Keeps e locked) (execute_tres-Keeps e (stop_tx e locked)) in
    let after = point_tx-Keeps e (reset_tx (execute_tres e (stop_tx e locked))) in
    record {
      read_same = after.same_read_semaphore ∙ before.same_read_semaphore;
      write_same = after.same_write_semaphore ∙ before.same_write_semaphore;
    }

pub purge_rx-SameSemaphores : (e : Env) (p : Port) → SameSemaphores p (purge_rx e p).1
unfolding purge_rx reset_rx
purge_rx-SameSemaphores e p =
    let locked = emit (spin_lock rx_lock) p in
    let before = Keeps-trans (stop_rx-Keeps e locked) (execute_rres-Keeps e (stop_rx e locked)) in
    let reset = reset_rx (execute_rres e (stop_rx e locked)) in
    let pointed = point_rx-Keeps e reset in
    let started = start_rx-Keeps e (emit (spin_unlock rx_lock) (point_rx e reset)) in
    record {
      read_same =
          started.same_read_semaphore ∙ pointed.same_read_semaphore ∙ before.same_read_semaphore;
      write_same =
          started.same_write_semaphore ∙ pointed.same_write_semaphore ∙ before.same_write_semaphore;
    }
