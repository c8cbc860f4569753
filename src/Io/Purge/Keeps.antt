-- ===== src/Io/Purge/Keeps.antt =====
-- io.c: what the access to the card in a purge leaves alone.
use fscc_linux.Prelude.{arith}
use fscc_linux.Kernel.{Env}
use fscc_linux.State.{Port, frame_at}
use fscc_linux.Port.Access.Keeps.{Keeps, Keeps-refl, set_register-Keeps}
use fscc_linux.Io.Dma.{execute_stop_r, execute_stop_t}
use fscc_linux.Io.Dma.Keeps.{
  execute_stop_r-Keeps, execute_rst_r-Keeps, execute_stop_t-Keeps, execute_rst_t-Keeps,
  execute_go_r-Keeps,
}
use fscc_linux.Io.Purge.{stop_tx, stop_rx, point_tx, point_rx, start_rx}

pub stop_tx-Keeps : (e : Env) (p : Port) → Keeps p (stop_tx e p)
unfolding stop_tx
stop_tx-Keeps e p =
    ground
      (arith, Keeps-refl p, execute_stop_t-Keeps e p, execute_rst_t-Keeps e (execute_stop_t e p))

pub stop_rx-Keeps : (e : Env) (p : Port) → Keeps p (stop_rx e p)
unfolding stop_rx
stop_rx-Keeps e p =
    ground
      (arith, Keeps-refl p, execute_stop_r-Keeps e p, execute_rst_r-Keeps e (execute_stop_r e p))

pub point_tx-Keeps : (e : Env) (p : Port) → Keeps p (point_tx e p)
unfolding point_tx
point_tx-Keeps e p = ground (
  arith,
  Keeps-refl p,
  set_register-Keeps e 2 0x10 (frame_at p.tx_descriptors 0).desc_physical_address p,
)

pub point_rx-Keeps : (e : Env) (p : Port) → Keeps p (point_rx e p)
unfolding point_rx
point_rx-Keeps e p = ground (
  arith,
  Keeps-refl p,
  set_register-Keeps e 2 0x0c (frame_at p.rx_descriptors 0).desc_physical_address p,
)

pub start_rx-Keeps : (e : Env) (p : Port) → Keeps p (start_rx e p)
unfolding start_rx
start_rx-Keeps e p = ground (arith, Keeps-refl p, execute_go_r-Keeps e p)
