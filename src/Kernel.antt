-- ===== src/Kernel.antt =====
-- What the driver asks of the kernel and of the card (linux/*.h, not part of the repository).
-- Every such call is an `Event`; a `Trace` lists the calls made so far, the newest first. What a
-- call answers is a parameter, `Env`, and may depend on everything that was called before.
use fscc_linux.Prelude.{
  ℕ, zero, suc, ◌/◌, ◌%◌, ◌^◌, Bool, Option, List, [], ◌∷◌, ◌≡◌, arith, length, take, refl, ap, ◌≤◌,
  not, ◌==◌, leb, ◌-◌,
}

pub data Lock : Type 0 where
  settings_lock rx_lock tx_lock : Lock

pub data WaitQueue : Type 0 where
  input_queue output_queue status_queue : WaitQueue

pub data Tasklet : Type 0 where
  iframe_tasklet send_oframe_tasklet timestamp_tasklet : Tasklet

pub data Pool : Type 0 where
  desc_pool rx_buffer_pool tx_buffer_pool : Pool

-- The attribute groups of sysfs.c.
pub data Group : Type 0 where
  registers_group commands_group settings_group : Group

pub data Event : Type 0 where
  -- ioread32, iowrite32 and their _rep versions: BAR, offset, and value, words or bytes
  read32 : ℕ → ℕ → Event
  write32 : ℕ → ℕ → ℕ → Event
  read32_rep : ℕ → ℕ → ℕ → Event
  write32_rep : ℕ → ℕ → List ℕ → Event
  get_time : Event
  spin_lock : Lock → Event
  spin_unlock : Lock → Event
  wake_up : WaitQueue → Event
  schedule : Tasklet → Event
  del_timer : Event
  mod_timer : ℕ → Event
  kzalloc : ℕ → Event
  kfree : Event
  copy_from : ℕ → Event
  copy_to : List ℕ → Event
  pool_create : Pool → ℕ → Event
  pool_destroy : Pool → Event
  pool_alloc : Pool → Event
  pool_free : Pool → ℕ → Event
  -- kmalloc of a port, of its name and of a card
  kmalloc_port : Event
  kmalloc : ℕ → Event
  kmalloc_card : Event
  device_create : Event
  device_destroy : Event
  cdev_add : Event
  cdev_del : Event
  request_irq : Event
  free_irq : Event
  sysfs_create_group : Group → Event
  tasklet_init : Tasklet → Event
  timer_setup : Event
  pci_request_region : ℕ → Event
  pci_release_region : ℕ → Event
  dma_set_mask_and_coherent : Event
  pci_set_master : Event
  pci_iomap : ℕ → Event
  class_create : Event
  class_destroy : Event
  register_chrdev : Event
  unregister_chrdev : Event
  pci_register_driver : Event
  pci_unregister_driver : Event
  pci_enable_device : ℕ → Event
  pci_disable_device : ℕ → Event
  pci_save_state : ℕ → Event
  pci_restore_state : ℕ → Event
  pci_set_power_state : ℕ → Event

abbrev pub Trace : Type 0
Trace = List Event

-- fscc_timestamp, on kernels from 4.0 on (struct timespec64).
pub record Timestamp : Type 0 where
  pub tv_sec : ℕ
  pub tv_nsec : ℕ

pub record Env : Type 0 where
  pub ioread32 : Trace → ℕ → ℕ → ℕ
  pub ioread32_rep : Trace → ℕ → ℕ → ℕ → List ℕ
  pub ktime_get_ts64 : Trace → Timestamp
  pub allocates : Trace → ℕ → Bool
  pub pool_creates : Trace → Pool → Bool
  pub pool_allocates : Trace → Pool → Option ℕ
  -- the bytes that a copy from or to user space leaves unmoved
  pub copy_unmoved : Trace → ℕ → ℕ
  pub timer_pending : Trace → Bool
  -- the result of the other calls: an `int` as a 32-bit pattern, a pointer as a 64-bit pattern
  pub returns : Trace → Event → ℕ

pub data Errno : Type 0 where
  eio enomem einval enotty enobufs enodev eagain eopnotsupp etimedout erestartsys : Errno

-- An `int` or `ssize_t` result: a count or a flag, or a negative errno.
pub data Ret : Type 0 where
  ok : ℕ → Ret
  err : Errno → Ret

-- The truth of a C number.
abbrev pub truthy : ℕ → Bool
truthy n = not (n == 0)

-- `x < 0` of an `int`
abbrev pub below_zero : ℕ → Bool
below_zero n = leb (2 ^ 31) n

-- IS_ERR (linux/err.h): the last 4095 addresses are errors.
abbrev pub is_err : ℕ → Bool
is_err pointer = leb (2 ^ 64 - 4095) pointer

abbrev pub u32 : ℕ → ℕ
u32 n = n % 2 ^ 32

-- The first `n` bytes of a buffer; what lies behind its end reads as zeros.
unfoldable pub fit : ℕ → List ℕ → List ℕ
fit zero xs = []
fit (suc n) [] = 0 ∷ fit n []
fit (suc n) (x ∷ xs) = x ∷ fit n xs

pub length-fit : (n : ℕ) (xs : List ℕ) → length (fit n xs) ≡ n
unfolding fit
length-fit zero xs = omega arith
length-fit (suc n) [] = omega (arith, length-fit n [])
length-fit (suc n) (x ∷ xs) = omega (arith, length-fit n xs)

pub fit-eq-take : (n : ℕ) (xs : List ℕ) → n ≤ length xs → fit n xs ≡ take n xs
unfolding fit
fit-eq-take zero xs h = refl
fit-eq-take (suc n) [] h = absurd (omega arith)
fit-eq-take (suc n) (x ∷ xs) h = ap (λ t. x ∷ t) (fit-eq-take n xs (omega arith))

-- The four bytes of a 32-bit word in memory, on a little-endian machine.
abbrev pub le_bytes : ℕ → List ℕ
le_bytes v = (v % 256) ∷ (v / 2 ^ 8 % 256) ∷ (v / 2 ^ 16 % 256) ∷ (v / 2 ^ 24 % 256) ∷ []
