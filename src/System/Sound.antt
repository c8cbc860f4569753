-- ===== src/System/Sound.antt =====
-- Both rings, and each operation of the port.
use fscc_linux.Prelude.{◌≡◌}
use fscc_linux.Kernel.{Event}
use fscc_linux.State.{Port, emit}
use fscc_linux.Port.Access.Keeps.{Keeps}
use fscc_linux.Io.Ready.Space.{IsTxRing}
use fscc_linux.Io.Ready.RxRing.{IsRxRing}
use fscc_linux.System.Same.{
  SameRings, Keeps-SameRings, SameTx, SameRx, IsTxRing-same, IsRxRing-same, emit-SameTx,
  emit-SameRx,
}

-- Both rings are well formed.
pub record IsSound (p : Port) : Type 0 where
  pub tx : IsTxRing p
  pub rx : IsRxRing p

pub IsSound-same : {p q : Port} → SameRings p q → IsSound p → IsSound q
IsSound-same s v = record { tx = IsTxRing-same s.tx_same v.tx; rx = IsRxRing-same s.rx_same v.rx }

pub kept : {p q : Port} → Keeps p q → IsSound p → IsSound q
kept k = IsSound-same (Keeps-SameRings k)

pub called : (t : Event) (p : Port) → IsSound p → IsSound (emit t p)
called t p = IsSound-same (record { tx_same = emit-SameTx t p; rx_same = emit-SameRx t p })

-- A port that differs from `p` in nothing that is a ring's.
pub untouched :
    {p q : Port}
    → q.memory ≡ p.memory
    → q.tx_descriptors ≡ p.tx_descriptors
    → q.rx_descriptors ≡ p.rx_descriptors
    → q.user_tx_desc ≡ p.user_tx_desc
    → q.fifo_tx_desc ≡ p.fifo_tx_desc
    → q.user_rx_desc ≡ p.user_rx_desc
    → q.fifo_rx_desc ≡ p.fifo_rx_desc
    → IsSound p
    → IsSound q
untouched m t r ut ft ur fr = IsSound-same (record {
  tx_same = record { memory_same = m; frames_same = t; user_same = ut; fifo_same = ft };
  rx_same = record { memory_same = m; frames_same = r; user_same = ur; fifo_same = fr };
})

pub same : {p q : Port} → SameTx p q × SameRx p q → IsSound p → IsSound q
same s = IsSound-same (record { tx_same = s.0; rx_same = s.1 })
