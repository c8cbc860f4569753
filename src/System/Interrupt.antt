-- ===== src/System/Interrupt.antt =====
-- isr.c: fscc_isr, and the two rings.
use fscc_linux.Prelude.{
  ℕ, refl, List, Bool, true, false, Bool-cases, inl, inr, ◌==◌, if◌then◌else◌, bit_or,
}
use fscc_linux.Kernel.{
  Env, Event, wake_up, schedule, status_queue, iframe_tasklet, del_timer, mod_timer, truthy,
}
use fscc_linux.Offsets.{isr_offset}
use fscc_linux.State.{Port, emit, has}
use fscc_linux.Port.Access.{get_register, is_dma}
use fscc_linux.Port.Access.Keeps.{Keeps-refl, get_register-Keeps}
use fscc_linux.Isr.{isr, dispatch, reset_timer, port_exists, receive_bits}
use fscc_linux.System.Same.{
  SameRings, SameRings-trans, Keeps-SameRings, SameTx-refl, SameRx-refl, emit-SameTx, emit-SameRx,
}

emit-both : (v : Event) (p : Port) → SameRings p (emit v p)
emit-both v p = record { tx_same = emit-SameTx v p; rx_same = emit-SameRx v p }

when-both : (b : Bool) (v : Event) (p : Port) → SameRings p (if b then emit v p else p)
when-both true v p = emit-both v p
when-both false v p = record { tx_same = SameTx-refl p; rx_same = SameRx-refl p }

both_bits : (p : Port) (n : ℕ) → SameRings p (record p { last_isr_value = n })
both_bits p n = record {
  tx_same = record { memory_same = refl; frames_same = refl; user_same = refl; fifo_same = refl };
  rx_same = record { memory_same = refl; frames_same = refl; user_same = refl; fifo_same = refl };
}

dispatch-both : (isr_value : ℕ) (p : Port) → SameRings p (dispatch isr_value p)
unfolding dispatch
dispatch-both isr_value p = elim (Bool-cases (truthy (is_dma p))) [
  | inl dma ↦ rw dma (when-both _ _ p)
  | inr fifo ↦ rw fifo (
      SameRings-trans (when-both (has isr_value receive_bits) (schedule iframe_tasklet) p)
        (when-both _ _ _))
]

pub isr-SameRings :
    (e : Env) (cards : List (List ℕ)) (port : ℕ) (p : Port) → SameRings p (isr e cards port p).1
unfolding isr reset_timer
isr-SameRings e cards port p = elim (Bool-cases (port_exists cards port)) [
  | inr unknown_port ↦ rw unknown_port nothing_done
  | inl known ↦ rw known (elim (Bool-cases ((get_register e 0 isr_offset p).0 == 0)) [
    | inl none_raised ↦ rw none_raised read
    | inr raised ↦ rw raised (
        SameRings-trans (SameRings-trans read (SameRings-trans stopped kept_bits)) (
          SameRings-trans (dispatch-both _ p3)
            (SameRings-trans (emit-both (wake_up status_queue) _) (emit-both (mod_timer 250) _))))
  ])
]
  where
    p1 : Port
    p1 = (get_register e 0 isr_offset p).1

    p2 : Port
    p2 = if e.timer_pending p1.trace then emit del_timer p1 else p1

    p3 : Port
    p3 = record p2 { last_isr_value = bit_or p2.last_isr_value (get_register e 0 isr_offset p).0 }

    read : SameRings p p1
    read = Keeps-SameRings (get_register-Keeps e 0 isr_offset p)

    nothing_done : SameRings p p
    nothing_done = Keeps-SameRings (Keeps-refl p)

    stopped : SameRings p1 p2
    stopped = when-both (e.timer_pending p1.trace) del_timer p1

    kept_bits : SameRings p2 p3
    kept_bits = both_bits p2 _
