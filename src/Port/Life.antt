-- ===== src/Port/Life.antt =====
-- port.c: fscc_port_new and fscc_port_delete, on kernels from 4.0 on and without DEBUG. The memory
-- that kmalloc gives for the port is a parameter, since nothing clears it; `force_fifo` and the
-- calls made so far stand in it too.
use fscc_linux.Prelude.{
  ℕ, ◌-◌, ◌^◌, List, [], ◌∷◌, Bool, true, false, if◌then◌else◌, ◌==◌, replicate,
}
use fscc_linux.Kernel.{
  Env, ok, err, Group, registers_group, commands_group, settings_group, iframe_tasklet,
  send_oframe_tasklet, timestamp_tasklet, kmalloc_port, kmalloc, kfree, device_create,
  device_destroy, cdev_add, cdev_del, request_irq, free_irq, sysfs_create_group, tasklet_init,
  timer_setup, del_timer, truthy, below_zero,
}
use fscc_linux.Offsets.{cmdr_offset, imr_offset, dtdb_offset, drdb_offset, dmaccr_offset, xf}
use fscc_linux.State.{Port, emit}
use fscc_linux.Port.Access.{get_prev, get_frev, set_register, is_dma}
use fscc_linux.Port.Registers.{set_registers}
use fscc_linux.Port.Settings.{
  set_append_status, set_append_timestamp, set_ignore_timeout, set_tx_modifiers, set_rx_multiple,
}
use fscc_linux.Port.Clock.{set_clock_bits}
use fscc_linux.Io.Dma.{
  dma_enable, reset_master, execute_stop_t, execute_stop_r, execute_rst_t, execute_rst_r,
}
use fscc_linux.Io.Frames.{initialize, destroy}
use fscc_linux.Io.Purge.{purge_rx, purge_tx}

-- The values of config.h in `struct fscc_registers`: the words that no default is set for are -1.
unfoldable pub default_registers : List ℕ
default_registers =
    let unset = 2 ^ 64 - 1 in
    unset
    ∷ unset
    ∷ 0x08001000
    ∷ unset
    ∷ unset
    ∷ unset
    ∷ unset
    ∷ 0x0011201c
    ∷ 0x00000018
    ∷ 0x00000000
    ∷ 0x00000000
    ∷ 0x0000007e
    ∷ 0x00000000
    ∷ 0x0000007e
    ∷ 0x00000000
    ∷ 0x00000000
    ∷ 0x00000000
    ∷ 0x00000000
    ∷ 0x00000000
    ∷ unset
    ∷ unset
    ∷ 0x0f000000
    ∷ 0x00000004
    ∷ 0x00000000
    ∷ replicate 6 unset

unfoldable pub default_clock_bits : List ℕ
default_clock_bits =
    0x0f ∷ 0x61 ∷ 0xe5 ∷ 0x00 ∷ 0x00 ∷ 0x00 ∷ 0x00 ∷ 0x00 ∷ 0x00 ∷ 0x00 ∷ 0x00 ∷ 0x18 ∷ 0x16 ∷ 0x40
    ∷ 0x01 ∷ 0x04 ∷ 0x00 ∷ 0xff ∷ 0xff ∷ 0xff ∷ []

-- DEFAULT_DESC_RX_SIZE and DEFAULT_DESC_TX_SIZE
abbrev pub default_desc_size : ℕ
default_desc_size = 256

-- The port's name and the port itself are freed.
abbrev release : Port → Port
release p = emit kfree (emit kfree p)

-- The settings of config.h.
unfoldable pub default_settings : Port → Port
default_settings p =
    set_rx_multiple 0
      (set_tx_modifiers xf
        (set_ignore_timeout 0 (set_append_timestamp 0 (set_append_status 0 p).1).1)).1

-- From fscc_io_initialize on.
unfoldable pub new_memory : Env → Port → Bool × Port
new_memory e p =
    let (status, p1) = initialize e default_desc_size default_desc_size p in
    elim status [
      | err x ↦ (false, p1)
      | ok n ↦
          (let p2 = if truthy (is_dma p1) then reset_master (dma_enable e p1).1 else p1 in
            (true, (purge_tx e (purge_rx e p2).1).1))
    ]

-- From the tasklets on.
unfoldable pub new_workers : Env → Port → Bool × Port
new_workers e p =
    let p1 =
      emit (tasklet_init timestamp_tasklet)
        (emit (tasklet_init iframe_tasklet) (emit (tasklet_init send_oframe_tasklet) p)) in
    let (prev, p2) = get_prev e p1 in
    let (frev, p3) = get_frev e p2 in
    new_memory e (emit timer_setup (set_clock_bits e default_clock_bits p3))

-- The groups in order; the first that cannot be made ends it.
unfoldable pub create_groups : Env → List Group → Port → Bool × Port
create_groups e [] p = (true, p)
create_groups e (group ∷ groups) p =
    let p1 = emit (sysfs_create_group group) p in
    let rest = create_groups e groups p1 in
    if truthy (e.returns p.trace (sysfs_create_group group)) then (false, p1) else rest

-- From `last_isr_value` on.
unfoldable pub new_registers : Env → Port → Bool × Port
new_registers e p =
    let p1 = record p { last_isr_value = 0; register_storage = default_registers } in
    let p2 = (set_registers e default_registers p1).1 in
    let p3 = emit request_irq p2 in
    if truthy (e.returns p2.trace request_irq)
    then (false, p3)
    else (let (created, p4) =
          create_groups e (registers_group ∷ commands_group ∷ settings_group ∷ []) p3 in
        if created then new_workers e p4 else (false, p4))

-- From the settings on. The poll semaphore is set to 1 too.
unfoldable pub new_device : Env → ℕ → ℕ → Port → Bool × Port
new_device e dma_capable channel p =
    let p1 = default_settings (record p { channel = channel; dma_capable = dma_capable }) in
    let (prev, p2) = get_prev e p1 in
    if prev == 0xff
    then (false, release (emit device_destroy p2))
    else (let p3 = record p2 { read_semaphore = 1; write_semaphore = 1 } in
        let p4 = emit cdev_add p3 in
        if below_zero (e.returns p3.trace cdev_add)
        then (false, release (emit device_destroy p4))
        else new_registers e p4)

-- Is a port returned, and what is in its memory?
unfoldable pub port_new : Env → ℕ → ℕ → Port → Bool × Port
port_new e dma_capable channel raw =
    let p1 = emit kmalloc_port raw in
    let p2 = emit (kmalloc 10) p1 in
    let p3 = emit device_create p2 in
    if e.returns raw.trace kmalloc_port == 0
    then (false, p1)
    else if e.returns p1.trace (kmalloc 10) == 0
    then (false, emit kfree p2)
    else if e.returns p2.trace device_create == 0
    then (false, release (emit device_destroy p3))
    else new_device e dma_capable channel p3

-- What a DMA port does before its memory goes.
unfoldable pub quiesce : Env → Port → Port
quiesce e p =
    let p1 = execute_rst_r e (execute_rst_t e (execute_stop_r e (execute_stop_t e p))) in
    let p2 = (set_register e 0 imr_offset 0xFFFFFFFF p1).1 in
    let p3 = (set_register e 2 dtdb_offset 0 p2).1 in
    let p4 = (set_register e 2 drdb_offset 0 p3).1 in (set_register e 2 dmaccr_offset 0 p4).1

unfoldable pub port_delete : Env → Port → Port
port_delete e p =
    let p1 = emit del_timer (set_register e 0 cmdr_offset 0x04000002 p).1 in
    let p2 = if truthy (is_dma p1) then quiesce e p1 else p1 in
    release (emit cdev_del (emit device_destroy (emit free_irq (destroy e p2))))
