-- ===== src/Io/Dma/Keeps.antt =====
-- The commands of the DMA engine and of the FIFO change nothing of a port but what register access does.
use fscc_linux.Prelude.{ℕ, Bool, arith}
use fscc_linux.Kernel.{Env}
use fscc_linux.State.{Port}
use fscc_linux.Port.Access.Keeps.{Keeps, Keeps-refl, set_register-Keeps, get_register-Keeps}
use fscc_linux.Io.Dma.{
  dma_command, execute_rst_r, execute_rst_t, execute_stop_r, execute_stop_t, execute_go_r,
  execute_rres, execute_tres, get_rxcnt, get_rfcnt, get_txcnt, get_tfcnt, execute_transmit,
  is_tx_running,
}

pub dma_command-Keeps : (e : Env) (v : ℕ) (p : Port) → Keeps p (dma_command e v p)
unfolding dma_command
dma_command-Keeps e v p = ground (arith, Keeps-refl p, set_register-Keeps e 2 0x04 v p)

pub execute_rst_r-Keeps : (e : Env) (p : Port) → Keeps p (execute_rst_r e p)
unfolding execute_rst_r
execute_rst_r-Keeps e p = dma_command-Keeps e _ p

pub execute_rst_t-Keeps : (e : Env) (p : Port) → Keeps p (execute_rst_t e p)
unfolding execute_rst_t
execute_rst_t-Keeps e p = dma_command-Keeps e _ p

pub execute_stop_r-Keeps : (e : Env) (p : Port) → Keeps p (execute_stop_r e p)
unfolding execute_stop_r
execute_stop_r-Keeps e p = dma_command-Keeps e _ p

pub execute_stop_t-Keeps : (e : Env) (p : Port) → Keeps p (execute_stop_t e p)
unfolding execute_stop_t
execute_stop_t-Keeps e p = dma_command-Keeps e _ p

pub execute_go_r-Keeps : (e : Env) (p : Port) → Keeps p (execute_go_r e p)
unfolding execute_go_r
execute_go_r-Keeps e p = dma_command-Keeps e _ p

pub execute_rres-Keeps : (e : Env) (p : Port) → Keeps p (execute_rres e p)
unfolding execute_rres
execute_rres-Keeps e p = set_register-Keeps e _ _ _ p

pub execute_tres-Keeps : (e : Env) (p : Port) → Keeps p (execute_tres e p)
unfolding execute_tres
execute_tres-Keeps e p = set_register-Keeps e _ _ _ p

pub execute_transmit-Keeps : (e : Env) (dma : Bool) (p : Port) → Keeps p (execute_transmit e dma p)
unfolding execute_transmit
execute_transmit-Keeps e dma p = set_register-Keeps e _ _ _ p

pub is_tx_running-Keeps : (e : Env) (p : Port) → Keeps p (is_tx_running e p).1
unfolding is_tx_running
is_tx_running-Keeps e p = get_register-Keeps e 2 0x30 p

pub get_rxcnt-Keeps : (e : Env) (p : Port) → Keeps p (get_rxcnt e p).1
unfolding get_rxcnt
get_rxcnt-Keeps e p = get_register-Keeps e 0 0x0C p

pub get_rfcnt-Keeps : (e : Env) (p : Port) → Keeps p (get_rfcnt e p).1
unfolding get_rfcnt
get_rfcnt-Keeps e p = get_register-Keeps e 0 0x10 p

pub get_txcnt-Keeps : (e : Env) (p : Port) → Keeps p (get_txcnt e p).1
unfolding get_txcnt
get_txcnt-Keeps e p = get_register-Keeps e 0 0x0C p

pub get_tfcnt-Keeps : (e : Env) (p : Port) → Keeps p (get_tfcnt e p).1
unfolding get_tfcnt
get_tfcnt-Keeps e p = get_register-Keeps e 0 0x10 p
