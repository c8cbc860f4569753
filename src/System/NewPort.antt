-- ===== src/System/NewPort.antt =====
-- port.c: fscc_port_new, from its memory on.
use fscc_linux.Prelude.{
  ℕ, ◌<◌, ◌≡◌, refl, sym, ap, ◌∙◌, arith, inl, inr, List, [], ◌∷◌, Bool, true, false, Bool-cases,
  ◌==◌,
}
use fscc_linux.Kernel.{
  Env, Group, truthy, below_zero, registers_group, commands_group, settings_group, tasklet_init,
  timestamp_tasklet, iframe_tasklet, send_oframe_tasklet, sysfs_create_group, request_irq, cdev_add,
  kmalloc_port, kmalloc, device_create,
}
use fscc_linux.State.{Port, emit}
use fscc_linux.Port.Access.{get_prev, get_frev, get_register}
use fscc_linux.Port.Access.Keeps.{Keeps, Keeps-refl, Keeps-trans}
use fscc_linux.Port.Settings.{
  set_append_status, set_append_timestamp, set_ignore_timeout, set_tx_modifiers, set_rx_multiple,
}
use fscc_linux.Port.Registers.{set_registers}
use fscc_linux.Port.Clock.{set_clock_bits}
use fscc_linux.Port.Life.{
  default_registers, default_clock_bits, default_desc_size, default_settings, new_memory,
  new_workers, create_groups, new_registers, new_device, port_new,
}
use fscc_linux.Io.Frames.{initialize}
use fscc_linux.Io.Frames.Initialized.{IsInitialized, initialize_lem}
use fscc_linux.Io.Purge.{purge_rx, purge_tx}
use fscc_linux.System.Control.{
  set_from-Keeps, set_clock_bits-Keeps, purge_tx-SameRx, purge_rx-SameTx, SameSemaphores,
}
use fscc_linux.System.Start.{IsFree, IsFree-Keeps, IsFree-same, IsIdle, enable-Keeps, purges-IsIdle}

-- If a port is returned, with a frame in each ring, it is idle.
abbrev Idles : Bool × Port → Type 0
Idles r = r.0 ≡ true → 0 < r.1.memory.tx_num → 0 < r.1.memory.rx_num → IsIdle r.1

Idles-none : (p : Port) → Idles (false, p)
Idles-none p h = absurd (ground (arith, h))

initialized-Idles :
    (e : Env) (p q r : Port)
    → IsFree p
    → IsInitialized 256 256 p q
    → Keeps q r
    → Idles (true, (purge_tx e (purge_rx e r).1).1)
initialized-Idles e p q r free i k h tx_some rx_some =
    purges-IsIdle e r
      (record {
        array = rw (k.same_tx_descriptors, k.same_memory) i.tx_count;
        few = rw (k.same_memory, sym i.tx_count) (omega (arith, i.tx_made.few));
        bounded = rw (k.same_memory, i.tx_sized, sym i.tx_count) (omega (arith, i.tx_made.few));
        some_frame = rw memory_same at tx_some;
      })
      (record {
        array = rw (k.same_rx_descriptors, k.same_memory) i.rx_count;
        few = rw (k.same_memory, sym i.rx_count) (omega (arith, i.rx_made.few));
        some_size = rw (k.same_memory, i.rx_sized) (omega arith);
        small = rw (k.same_memory, i.rx_sized) (omega arith);
        some_frame = rw memory_same at rx_some;
        whole =
            rw (k.same_memory, k.same_rx_descriptors, i.rx_sized, sym i.rx_count) i.rx_made.whole;
      })
      (ap (λ m. m.tx_size) k.same_memory ∙ i.tx_sized)
      (IsFree-Keeps k
        (IsFree-same (record { read_same = i.read_same; write_same = i.write_same }) free))
  where
    memory_same : (purge_tx e (purge_rx e r).1).1.memory ≡ r.memory
    memory_same =
        (purge_tx-SameRx e (purge_rx e r).1).memory_same ∙ (purge_rx-SameTx e r).memory_same

new_memory-Idles : (e : Env) (p : Port) → IsFree p → Idles (new_memory e p)
unfolding new_memory
new_memory-Idles e p free = elim (initialize_lem e default_desc_size default_desc_size p) [
  | inl failed ↦ rw (new_memory, failed) (Idles-none _)
  | inr (given, i) ↦
      rw (new_memory, given)
        (initialized-Idles e p _ _ free i
          (enable-Keeps e (initialize e default_desc_size default_desc_size p).1))
]

revisions :
    (e : Env) (p : Port)
    → Keeps p
        (get_frev e
          (get_prev e (
            emit (tasklet_init timestamp_tasklet) (
              emit (tasklet_init iframe_tasklet) (emit (tasklet_init send_oframe_tasklet) p)))).1).1
unfolding get_frev get_prev get_register
revisions e p = ground arith

new_workers-Idles : (e : Env) (p : Port) → IsFree p → Idles (new_workers e p)
unfolding new_workers
new_workers-Idles e p free = new_memory-Idles e _ (record {
  read_one = clocked.same_read_semaphore ∙ free.read_one;
  write_one = clocked.same_write_semaphore ∙ free.write_one;
})
  where
    p3 : Port
    p3 =
        (get_frev e
          (get_prev e (
            emit (tasklet_init timestamp_tasklet) (
              emit (tasklet_init iframe_tasklet) (emit (tasklet_init send_oframe_tasklet) p)))).1).1

    clocked : Keeps p (set_clock_bits e default_clock_bits p3)
    clocked = Keeps-trans (revisions e p) (set_clock_bits-Keeps e default_clock_bits p3)

create_groups-Keeps :
    (e : Env) (groups : List Group) (p : Port) → Keeps p (create_groups e groups p).1
unfolding create_groups
create_groups-Keeps e [] p = Keeps-refl p
create_groups-Keeps e (group ∷ groups) p =
    ground (arith, create_groups-Keeps e groups (emit (sysfs_create_group group) p))

default_settings-same : (p : Port) → SameSemaphores p (default_settings p)
unfolding default_settings set_append_status set_append_timestamp set_ignore_timeout
    set_tx_modifiers set_rx_multiple
default_settings-same p = ground arith

new_registers-Idles : (e : Env) (p : Port) → IsFree p → Idles (new_registers e p)
unfolding new_registers set_registers
new_registers-Idles e p free = elim (Bool-cases (truthy (e.returns p2.trace request_irq))) [
  | inl refused ↦ rw refused (Idles-none _)
  | inr given ↦ rw given (elim (Bool-cases groups.0) [
    | inl created ↦ rw created (new_workers-Idles e groups.1 (IsFree-Keeps listed free))
    | inr failed ↦ rw failed (Idles-none _)
  ])
]
  where
    p1 : Port
    p1 = record p { last_isr_value = 0; register_storage = default_registers }

    p2 : Port
    p2 = (set_registers e default_registers p1).1

    groups : Bool × Port
    groups =
        create_groups e (registers_group ∷ commands_group ∷ settings_group ∷ [])
          (emit request_irq p2)

    written : Keeps p (emit request_irq p2)
    written = ground (arith, set_from-Keeps e 0 default_registers false p1)

    listed : Keeps p groups.1
    listed = Keeps-trans written (create_groups-Keeps e _ (emit request_irq p2))

new_device-Idles :
    (e : Env) (dma_capable channel : ℕ) (p : Port) → Idles (new_device e dma_capable channel p)
unfolding new_device
new_device-Idles e dma_capable channel p = elim (Bool-cases ((get_prev e p1).0 == 0xff)) [
  | inl broken ↦ rw broken (Idles-none _)
  | inr whole ↦ rw whole (elim (Bool-cases (below_zero (e.returns p3.trace cdev_add))) [
    | inl refused ↦ rw refused (Idles-none _)
    | inr added ↦
        rw added
          (new_registers-Idles e (emit cdev_add p3) (record { read_one = refl; write_one = refl }))
  ])
]
  where
    p1 : Port
    p1 = default_settings (record p { channel = channel; dma_capable = dma_capable })

    p3 : Port
    p3 = record ((get_prev e p1).1) { read_semaphore = 1; write_semaphore = 1 }

-- When fscc_port_new returns a port, and could make a frame for each ring, the port is idle,
-- whatever its memory held before: both rings are well formed, all memory for sending is free, there is
-- nothing to read, and the semaphores for reading and writing are 1.
pub port_new-IsIdle :
    (e : Env) (dma_capable channel : ℕ) (raw : Port)
    → (port_new e dma_capable channel raw).0 ≡ true
    → 0 < (port_new e dma_capable channel raw).1.memory.tx_num
    → 0 < (port_new e dma_capable channel raw).1.memory.rx_num
    → IsIdle (port_new e dma_capable channel raw).1
unfolding port_new
port_new-IsIdle e dma_capable channel raw =
    elim (Bool-cases (e.returns raw.trace kmalloc_port == 0)) [
      | inl none_given ↦ rw none_given (Idles-none (emit kmalloc_port raw))
      | inr given ↦
          rw given (elim (Bool-cases (e.returns (kmalloc_port ∷ raw.trace) (kmalloc 10) == 0)) [
            | inl nameless ↦ rw nameless (Idles-none _)
            | inr named ↦
                rw named
                  (elim (Bool-cases
                    (e.returns (kmalloc 10 ∷ kmalloc_port ∷ raw.trace) device_create == 0)) [
                      | inl refused ↦ rw refused (Idles-none _)
                      | inr created ↦ rw created (new_device-Idles e dma_capable channel _)
                    ])
          ])
    ]
