-- ===== src/System/Same.antt =====
-- What an operation leaves alone of the two rings.
use fscc_linux.Prelude.{◌≡◌, refl, ◌∙◌}
use fscc_linux.Kernel.{Event}
use fscc_linux.State.{Port, emit}
use fscc_linux.Port.Access.Keeps.{Keeps}
use fscc_linux.Io.Ready.Space.{IsTxRing}
use fscc_linux.Io.Ready.RxRing.{IsRxRing}

pub record SameTx (p q : Port) : Type 0 where
  pub memory_same : q.memory ≡ p.memory
  pub frames_same : q.tx_descriptors ≡ p.tx_descriptors
  pub user_same : q.user_tx_desc ≡ p.user_tx_desc
  pub fifo_same : q.fifo_tx_desc ≡ p.fifo_tx_desc

pub record SameRx (p q : Port) : Type 0 where
  pub memory_same : q.memory ≡ p.memory
  pub frames_same : q.rx_descriptors ≡ p.rx_descriptors
  pub user_same : q.user_rx_desc ≡ p.user_rx_desc
  pub fifo_same : q.fifo_rx_desc ≡ p.fifo_rx_desc

pub Keeps-SameTx : {p q : Port} → Keeps p q → SameTx p q
Keeps-SameTx k = record {
  memory_same = k.same_memory;
  frames_same = k.same_tx_descriptors;
  user_same = k.same_user_tx_desc;
  fifo_same = k.same_fifo_tx_desc;
}

pub Keeps-SameRx : {p q : Port} → Keeps p q → SameRx p q
Keeps-SameRx k = record {
  memory_same = k.same_memory;
  frames_same = k.same_rx_descriptors;
  user_same = k.same_user_rx_desc;
  fifo_same = k.same_fifo_rx_desc;
}

pub SameTx-trans : {p q r : Port} → SameTx p q → SameTx q r → SameTx p r
SameTx-trans h k = record {
  memory_same = k.memory_same ∙ h.memory_same;
  frames_same = k.frames_same ∙ h.frames_same;
  user_same = k.user_same ∙ h.user_same;
  fifo_same = k.fifo_same ∙ h.fifo_same;
}

pub SameRx-trans : {p q r : Port} → SameRx p q → SameRx q r → SameRx p r
SameRx-trans h k = record {
  memory_same = k.memory_same ∙ h.memory_same;
  frames_same = k.frames_same ∙ h.frames_same;
  user_same = k.user_same ∙ h.user_same;
  fifo_same = k.fifo_same ∙ h.fifo_same;
}

pub IsTxRing-same : {p q : Port} → SameTx p q → IsTxRing p → IsTxRing q
IsTxRing-same s v = record {
  array = rw (s.frames_same, s.memory_same) v.array;
  few = rw s.memory_same v.few;
  bounded = rw s.memory_same v.bounded;
  user_in = rw (s.user_same, s.memory_same) v.user_in;
  fifo_in = rw (s.fifo_same, s.memory_same) v.fifo_in;
}

pub IsRxRing-same : {p q : Port} → SameRx p q → IsRxRing p → IsRxRing q
IsRxRing-same s v = record {
  array = rw (s.frames_same, s.memory_same) v.array;
  few = rw s.memory_same v.few;
  some_size = rw s.memory_same v.some_size;
  small = rw s.memory_same v.small;
  user_in = rw (s.user_same, s.memory_same) v.user_in;
  fifo_in = rw (s.fifo_same, s.memory_same) v.fifo_in;
  frames = rw (s.frames_same, s.memory_same) v.frames;
}

pub SameTx-refl : (p : Port) → SameTx p p
SameTx-refl p = record {
  memory_same = refl;
  frames_same = refl;
  user_same = refl;
  fifo_same = refl;
}

pub SameRx-refl : (p : Port) → SameRx p p
SameRx-refl p = record {
  memory_same = refl;
  frames_same = refl;
  user_same = refl;
  fifo_same = refl;
}

pub emit-SameTx : (v : Event) (p : Port) → SameTx p (emit v p)
emit-SameTx v p = record {
  memory_same = refl;
  frames_same = refl;
  user_same = refl;
  fifo_same = refl;
}

pub emit-SameRx : (v : Event) (p : Port) → SameRx p (emit v p)
emit-SameRx v p = record {
  memory_same = refl;
  frames_same = refl;
  user_same = refl;
  fifo_same = refl;
}

-- Nothing of either ring is different.
pub record SameRings (p q : Port) : Type 0 where
  pub tx_same : SameTx p q
  pub rx_same : SameRx p q

pub SameRings-trans : {p q r : Port} → SameRings p q → SameRings q r → SameRings p r
SameRings-trans h k = record {
  tx_same = SameTx-trans h.tx_same k.tx_same;
  rx_same = SameRx-trans h.rx_same k.rx_same;
}

pub Keeps-SameRings : {p q : Port} → Keeps p q → SameRings p q
Keeps-SameRings k = record { tx_same = Keeps-SameTx k; rx_same = Keeps-SameRx k }
