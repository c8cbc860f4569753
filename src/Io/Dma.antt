-- ===== src/Io/Dma.antt =====
-- io.c: the commands of the DMA engine and of the FIFO, and the FIFO's counters.
pub mod Keeps
use fscc_linux.Prelude.{
  ℕ, ◌/◌, ◌^◌, Bool, true, false, not, ◌&&◌, if◌then◌else◌, ltb, ◌==◌, bit_and, bit_or,
}
use fscc_linux.Kernel.{Env, Ret, truthy}
use fscc_linux.Offsets.{
  cmdr_offset, dmaccr_offset, dstar_offset, fifo_bc_offset, fifo_fc_offset, xrep, txt, txext,
}
use fscc_linux.State.{Port, has}
use fscc_linux.Card
use fscc_linux.Port.Access.{get_register, set_register, is_dma}

unfoldable pub execute_rres : Env → Port → Port
execute_rres e p = (set_register e 0 cmdr_offset 0x00020000 p).1

unfoldable pub execute_tres : Env → Port → Port
execute_tres e p = (set_register e 0 cmdr_offset 0x08000000 p).1

-- The body that the six fscc_dma_execute_* functions share.
unfoldable pub dma_command : Env → ℕ → Port → Port
dma_command e value p = if is_dma p == 1 then (set_register e 2 dmaccr_offset value p).1 else p

unfoldable pub execute_rst_r : Env → Port → Port
execute_rst_r e p = dma_command e 0x00000010 p

unfoldable pub execute_rst_t : Env → Port → Port
execute_rst_t e p = dma_command e 0x00000020 p

unfoldable pub execute_go_t : Env → Port → Port
execute_go_t e p = dma_command e 0x00000002 p

unfoldable pub execute_go_r : Env → Port → Port
execute_go_r e p = dma_command e 0x00000001 p

unfoldable pub execute_stop_r : Env → Port → Port
execute_stop_r e p = dma_command e 0x00000100 p

unfoldable pub execute_stop_t : Env → Port → Port
execute_stop_t e p = dma_command e 0x00000200 p

unfoldable pub is_rx_running : Env → Port → Bool × Port
is_rx_running e p =
    let (dstar_value, p1) = get_register e 2 dstar_offset p in
    (if p.channel == 0 then not (has dstar_value 0x1) else not (has dstar_value 0x4), p1)

unfoldable pub is_tx_running : Env → Port → Bool × Port
is_tx_running e p =
    let (dstar_value, p1) = get_register e 2 dstar_offset p in
    (if p.channel == 0 then not (has dstar_value 0x2) else not (has dstar_value 0x8), p1)

unfoldable pub is_master_dead : Env → Port → Bool × Port
is_master_dead e p =
    let (dstar_value, p1) = get_register e 2 dstar_offset p in (has dstar_value 0x10, p1)

-- It writes to the card, and so to the first port's register.
unfoldable pub reset_master : Port → Port
reset_master p = record p { trace = Card.set_register 2 dmaccr_offset 0x10000 p.trace }

unfoldable pub dma_enable : Env → Port → Ret × Port
dma_enable e p = set_register e 2 dmaccr_offset 0x03000000 p

unfoldable pub dma_disable : Env → Port → Ret × Port
dma_disable e p = set_register e 2 dmaccr_offset 0x00000000 p

-- The bytes in the receive FIFO, at most 8192.
unfoldable pub get_rxcnt : Env → Port → ℕ × Port
get_rxcnt e p =
    let (value, p1) = get_register e 0 fifo_bc_offset p in
    let fifo_bc_value = bit_and value 0x00003FFF in
    (if ltb 8192 fifo_bc_value then 0 else fifo_bc_value, p1)

unfoldable pub get_rfcnt : Env → Port → ℕ × Port
get_rfcnt e p =
    let (value, p1) = get_register e 0 fifo_fc_offset p in (bit_and value 0x000003ff, p1)

unfoldable pub get_txcnt : Env → Port → ℕ × Port
get_txcnt e p =
    let (value, p1) = get_register e 0 fifo_bc_offset p in (bit_and value 0x1FFF0000 / 2 ^ 16, p1)

unfoldable pub get_tfcnt : Env → Port → ℕ × Port
get_tfcnt e p =
    let (value, p1) = get_register e 0 fifo_fc_offset p in (bit_and value 0x01ff0000 / 2 ^ 16, p1)

-- The transmit command of fscc_io_execute_transmit, with the modifiers that are set.
unfoldable pub transmit_command : Bool → ℕ → ℕ
transmit_command dma tx_modifiers =
    let command_value = if dma then 0x00000002 else 0x01000000 in
    let repeated =
      if has tx_modifiers xrep
      then bit_or command_value (if dma then 0x40000000 else 0x02000000)
      else command_value in
    let timed = if has tx_modifiers txt then bit_or repeated 0x10000000 else repeated in
    if has tx_modifiers txext then bit_or timed 0x20000000 else timed

unfoldable pub execute_transmit : Env → Bool → Port → Port
execute_transmit e dma p =
    (set_register e (if dma then 2 else 0) (if dma then dmaccr_offset else cmdr_offset)
      (transmit_command dma p.tx_modifiers) p).1
