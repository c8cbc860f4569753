-- ===== src/Io/Frames.antt =====
-- io.c: the descriptors and buffers of a port, made once when the port is set up.
pub mod Links
pub mod Made
pub mod Initialized
use fscc_linux.Prelude.{
  ℕ, zero, suc, ◌+◌, ◌-◌, ◌*◌, ◌%◌, Option, none, some, List, [], ◌∷◌, true, false, ltb,
  if◌then◌else◌, length, replicate, take,
}
use fscc_linux.Kernel.{
  Env, enomem, Ret, ok, err, Pool, desc_pool, rx_buffer_pool, tx_buffer_pool, kzalloc, kfree,
  pool_create, pool_destroy, pool_alloc, pool_free, truthy, u32,
}
use fscc_linux.Offsets.{desc_hi_bit, drdb_offset, dtdb_offset}
use fscc_linux.State.{IoFrame, Port, emit, no_time, frame_at}
use fscc_linux.Port.Access.{set_register, is_dma}
use fscc_linux.Io.Dma.{execute_stop_r, execute_rst_r, execute_stop_t, execute_rst_t}

-- On a 64-bit machine.
abbrev pub sizeof_io_frame : ℕ
sizeof_io_frame = 56

-- The size of a pool's blocks: that of its buffers.
unfoldable pub block_size : Pool → Port → ℕ
block_size rx_buffer_pool p = p.memory.rx_size
block_size tx_buffer_pool p = p.memory.tx_size
block_size desc_pool p = 16

-- The last part of fscc_io_create_frame, with the descriptor at `address`.
unfoldable pub create_buffer : Env → Pool → ℕ → Port → Option IoFrame × Port
create_buffer e pool address p =
    let p1 = emit (pool_alloc pool) p in
    elim (e.pool_allocates p.trace pool) [
      | none ↦ (none, emit kfree (emit (pool_free desc_pool address) p1))
      | some location ↦ (
        some (record {
          desc = record {
            control = 0;
            data_address = u32 location;
            data_count = 0;
            next_descriptor = 0;
          };
          desc_physical_address = address;
          buffer = replicate (block_size pool p) 0;
          timestamp = no_time;
        }),
        p1,
      )
    ]

unfoldable pub create_frame : Env → Pool → Port → Option IoFrame × Port
create_frame e pool p =
    let p1 = emit (kzalloc sizeof_io_frame) p in
    let p2 = emit (pool_alloc desc_pool) p1 in
    if e.allocates p.trace sizeof_io_frame
    then elim (e.pool_allocates p1.trace desc_pool) [
      | none ↦ (none, emit kfree p2)
      | some address ↦ create_buffer e pool (u32 address) p2
    ]
    else (none, p1)

unfoldable pub destroy_frame : Pool → IoFrame → Port → Port
destroy_frame pool frame p = emit kfree (
    emit (pool_free desc_pool frame.desc_physical_address)
      (emit (pool_free pool frame.desc.data_address) p))

-- fscc_io_link_descriptors, from the frame at index `i` on, of `amount` frames.
unfoldable pub link_from : ℕ → List IoFrame → ℕ → List IoFrame → List IoFrame
link_from i all amount [] = []
link_from i all amount (frame ∷ rest) =
    record frame {
      desc = record (frame.desc) {
        next_descriptor =
            (frame_at all (if ltb i (amount - 1) then i + 1 else 0)).desc_physical_address;
      };
    }
    ∷ link_from (i + 1) all amount rest

unfoldable pub link_descriptors : List IoFrame → List IoFrame
link_descriptors frames = link_from 0 frames (length frames) frames

-- The loop of fscc_io_create_{rx,tx}_frames from index `i` on: it stops at the first frame that
-- cannot be made.
unfoldable pub create_loop : Env → Pool → ℕ → ℕ → ℕ → Port → List IoFrame × Port
create_loop e pool data_count i zero p = ([], p)
create_loop e pool data_count i (suc left) p =
    let (made, p1) = create_frame e pool p in
    let (rest, p2) = create_loop e pool data_count (i + 1) left p1 in
    elim made [
      | none ↦ ([], p1)
      | some frame ↦ (
        record frame {
          desc = record (frame.desc) {
            control = if truthy (i % 2) then desc_hi_bit else 0;
            data_count = data_count;
          };
        }
            ∷ rest,
        p2,
      )
    ]

unfoldable pub create_rx_frames : Env → ℕ → Port → Ret × Port
create_rx_frames e number_of_frames p =
    let p1 = emit (kzalloc (8 * number_of_frames)) p in
    if e.allocates p.trace (8 * number_of_frames)
    then (let (frames, p2) = create_loop e rx_buffer_pool p.memory.rx_size 0 number_of_frames p1 in
        (
          ok 0,
          record p2 {
            rx_array = true;
            rx_descriptors = link_descriptors frames;
            memory = record (p2.memory) { rx_num = length frames };
          },
        ))
    else (err enomem, record p1 { rx_array = false; rx_descriptors = [] })

unfoldable pub create_tx_frames : Env → ℕ → Port → Ret × Port
create_tx_frames e number_of_frames p =
    let p1 = emit (kzalloc (8 * number_of_frames)) p in
    if e.allocates p.trace (8 * number_of_frames)
    then (let (frames, p2) = create_loop e tx_buffer_pool 0 0 number_of_frames p1 in
        (
          ok 0,
          record p2 {
            tx_array = true;
            tx_descriptors = link_descriptors frames;
            memory = record (p2.memory) { tx_num = length frames };
          },
        ))
    else (err enomem, record p1 { tx_array = false; tx_descriptors = [] })

-- The second half of fscc_io_initialize: DEFAULT_DESC_RX_NUM and DEFAULT_DESC_TX_NUM frames.
unfoldable pub initialize_frames : Env → Port → Ret × Port
initialize_frames e p =
    let (status, p1) = create_rx_frames e 200 p in
    elim status [
      | err x ↦ (err enomem, p1)
      | ok n ↦
          (let (status_tx, p2) = create_tx_frames e 200 p1 in
            elim status_tx [ err x ↦ (err enomem, p2) | ok m ↦ (ok 0, p2) ])
    ]

unfoldable pub initialize : Env → ℕ → ℕ → Port → Ret × Port
initialize e rx_buffer_size tx_buffer_size p =
    let p1 = emit (pool_create desc_pool 16) p in
    let p2 = emit (pool_create rx_buffer_pool rx_buffer_size) p1 in
    let p3 =
      emit (pool_create tx_buffer_pool tx_buffer_size)
        (record p2 { memory = record (p2.memory) { rx_size = rx_buffer_size } }) in
    if e.pool_creates p.trace desc_pool
    then (if e.pool_creates p1.trace rx_buffer_pool
        then (if e.pool_creates p2.trace tx_buffer_pool
            then initialize_frames e
                (record p3 { memory = record (p3.memory) { tx_size = tx_buffer_size } })
            else (err enomem, record p3 { memory = record (p3.memory) { tx_size = 0 } }))
        else (err enomem, record p2 { memory = record (p2.memory) { rx_size = 0 } }))
    else (err enomem, p1)

unfoldable pub destroy_frames : Pool → List IoFrame → Port → Port
destroy_frames pool [] p = p
destroy_frames pool (frame ∷ rest) p = destroy_frames pool rest (destroy_frame pool frame p)

unfoldable pub destroy_rx_frames : Env → Port → Port
destroy_rx_frames e p =
    let p1 =
      if truthy (is_dma p)
      then (set_register e 2 drdb_offset 0 (execute_rst_r e (execute_stop_r e p))).1
      else p in
    if p1.rx_array
    then record (emit kfree
        (destroy_frames rx_buffer_pool (take p1.memory.rx_num p1.rx_descriptors) p1)) {
          rx_array = false;
          rx_descriptors = [];
          memory = record (p1.memory) { rx_num = 0 };
        }
    else p1

unfoldable pub destroy_tx_frames : Env → Port → Port
destroy_tx_frames e p =
    let p1 =
      if truthy (is_dma p)
      then (set_register e 2 dtdb_offset 0 (execute_rst_t e (execute_stop_t e p))).1
      else p in
    if p1.tx_array
    then record (emit kfree
        (destroy_frames tx_buffer_pool (take p1.memory.tx_num p1.tx_descriptors) p1)) {
          tx_array = false;
          tx_descriptors = [];
          memory = record (p1.memory) { tx_num = 0 };
        }
    else p1

unfoldable pub destroy_pools : Port → Port
destroy_pools p =
    emit (pool_destroy desc_pool)
      (emit (pool_destroy tx_buffer_pool) (emit (pool_destroy rx_buffer_pool) p))

unfoldable pub destroy : Env → Port → Port
destroy e p = destroy_pools (destroy_tx_frames e (destroy_rx_frames e p))
