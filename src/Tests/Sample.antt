-- ===== src/Tests/Sample.antt =====
-- A port of three transmit and two receive descriptors, and an environment that serves every call.
use fscc_linux.Prelude.{ℕ, ◌*◌, [], ◌∷◌, true, false, replicate, some}
use fscc_linux.Kernel.{
  Env, Event, device_create, pci_iomap, class_create, kmalloc_port, kmalloc, kmalloc_card,
}
use fscc_linux.State.{IoFrame, Port, no_time}
use fscc_linux.Offsets.{desc_cstop_bit}

-- Pointers for what gives a pointer, and 0 for what gives an `int`.
unfoldable pub answer : Event → ℕ
answer device_create = 4096
answer (pci_iomap bar) = 4096
answer class_create = 4096
answer kmalloc_port = 4096
answer (kmalloc n) = 4096
answer kmalloc_card = 4096
answer _ = 0

-- Every register reads as `value`; memory is given, and every byte is copied.
abbrev pub reading : ℕ → Env
reading value = record {
  ioread32 = λ t bar offset. value;
  ioread32_rep = λ t bar offset n. replicate (4 * n) 0;
  ktime_get_ts64 = λ t. no_time;
  allocates = λ t n. true;
  pool_creates = λ t pool. true;
  pool_allocates = λ t pool. some 4096;
  copy_unmoved = λ t n. 0;
  timer_pending = λ t. false;
  returns = λ t v. answer v;
}

abbrev pub frame : ℕ → ℕ → IoFrame
frame control address = record {
  desc = record { control = control; data_address = address; data_count = 0; next_descriptor = 0 };
  desc_physical_address = address;
  buffer = 0 ∷ 0 ∷ 0 ∷ 0 ∷ [];
  timestamp = no_time;
}

abbrev pub port : Port
port = record {
  channel = 0;
  dma_capable = 0;
  force_fifo = 0;
  register_storage = replicate 30 0;
  last_isr_value = 0;
  append_status = 0;
  append_timestamp = 0;
  ignore_timeout = 0;
  rx_multiple = 0;
  tx_modifiers = 0;
  memory = record { tx_num = 3; tx_size = 4; rx_num = 2; rx_size = 4 };
  rx_array = true;
  rx_descriptors = frame 0 1000 ∷ frame 0 1020 ∷ [];
  user_rx_desc = 1;
  fifo_rx_desc = 1;
  rx_bytes_in_frame = 0;
  rx_frame_size = 0;
  tx_array = true;
  tx_descriptors =
      frame desc_cstop_bit 2000 ∷ frame desc_cstop_bit 2020 ∷ frame desc_cstop_bit 2040 ∷ [];
  user_tx_desc = 2;
  fifo_tx_desc = 2;
  tx_bytes_in_frame = 0;
  tx_frame_size = 0;
  read_semaphore = 1;
  write_semaphore = 1;
  trace = [];
}

abbrev pub patient : Port
patient = record port { ignore_timeout = 1 }
