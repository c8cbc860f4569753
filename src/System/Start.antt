-- ===== src/System/Start.antt =====
-- port.c: fscc_port_new, which makes the port that the steps start from.
use fscc_linux.Prelude.{◌*◌, ◌≡◌, refl, ◌∙◌, arith, false, if◌then◌else◌}
use fscc_linux.Kernel.{Env, truthy}
use fscc_linux.State.{Port}
use fscc_linux.Port.Access.{is_dma}
use fscc_linux.Port.Access.Keeps.{Keeps, Keeps-refl, set_register-Keeps}
use fscc_linux.Io.Dma.{dma_enable, reset_master}
use fscc_linux.Io.Ready.{user_get_tx_space, user_next_read_size}
use fscc_linux.Io.Purge.{purge_rx, purge_tx}
use fscc_linux.Io.Purge.Fresh.{IsTxArray, IsRxArray, purged_tx}
use fscc_linux.Io.Purge.Emptied.{purged_rx}
use fscc_linux.System.Same.{SameTx, SameRx, IsRxRing-same}
use fscc_linux.System.Control.{
  purge_tx-SameRx, purge_rx-SameTx, SameSemaphores, purge_tx-SameSemaphores,
  purge_rx-SameSemaphores,
}
use fscc_linux.System.Sound.{IsSound}

-- Sound, with nothing sent or received yet, and both semaphores free.
pub record IsIdle (p : Port) : Type 0 where
  pub sound : IsSound p
  pub all_space : user_get_tx_space p ≡ p.memory.tx_num * 256
  pub nothing_received : user_next_read_size p ≡ (false, 0)
  pub read_free : p.read_semaphore ≡ 1
  pub write_free : p.write_semaphore ≡ 1

pub record IsFree (p : Port) : Type 0 where
  pub read_one : p.read_semaphore ≡ 1
  pub write_one : p.write_semaphore ≡ 1

pub IsFree-same : {p q : Port} → SameSemaphores p q → IsFree p → IsFree q
IsFree-same s f = record {
  read_one = s.read_same ∙ f.read_one;
  write_one = s.write_same ∙ f.write_one;
}

pub IsFree-Keeps : {p q : Port} → Keeps p q → IsFree p → IsFree q
IsFree-Keeps k =
    IsFree-same (record { read_same = k.same_read_semaphore; write_same = k.same_write_semaphore })

IsTxArray-same : {p q : Port} → SameTx p q → IsTxArray p → IsTxArray q
IsTxArray-same s v = record {
  array = rw (s.frames_same, s.memory_same) v.array;
  few = rw s.memory_same v.few;
  bounded = rw s.memory_same v.bounded;
  some_frame = rw s.memory_same v.some_frame;
}

user_next_read_size-same : {p q : Port} → SameRx p q → user_next_read_size q ≡ user_next_read_size p
unfolding user_next_read_size
user_next_read_size-same s = rw (s.frames_same, s.user_same, s.memory_same) refl

-- Both purges of a port with frames.
pub purges-IsIdle :
    (e : Env) (p : Port)
    → IsTxArray p
    → IsRxArray p
    → p.memory.tx_size ≡ 256
    → IsFree p
    → IsIdle (purge_tx e (purge_rx e p).1).1
purges-IsIdle e p tx rx sized free =
    let p1 = (purge_rx e p).1 in
    let kept = purge_rx-SameTx e p in
    let kept1 = purge_tx-SameRx e p1 in
    let emptied = purged_rx e p rx in
    let freed = purged_tx e p1 (IsTxArray-same kept tx) in
    let free1 =
      IsFree-same (purge_tx-SameSemaphores e p1) (IsFree-same (purge_rx-SameSemaphores e p) free) in
    record {
      sound = record { tx = freed.0; rx = IsRxRing-same kept1 emptied.0 };
      all_space = freed.1 ∙ rw (kept1.memory_same, kept.memory_same, sized) refl;
      nothing_received = user_next_read_size-same kept1 ∙ emptied.1;
      read_free = free1.read_one;
      write_free = free1.write_one;
    }

-- The DMA engine is switched on.
pub enable-Keeps :
    (e : Env) (p : Port)
    → Keeps p (if truthy (is_dma p) then reset_master (dma_enable e p).1 else p)
unfolding dma_enable reset_master
enable-Keeps e p = ground (arith, Keeps-refl p, set_register-Keeps e 2 0x04 0x03000000 p)
