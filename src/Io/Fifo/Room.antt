-- ===== src/Io/Fifo/Room.antt =====
-- io.c: how much fscc_fifo_write_data puts into the transmit FIFO.
use fscc_linux.Prelude.{
  ℕ, zero, suc, ◌+◌, ◌-◌, ◌*◌, ◌/◌, ◌%◌, ◌^◌, ◌≤◌, ◌<◌, ◌≡◌, ◌≢◌, refl, ◌∙◌, arith, List, [], ◌∷◌,
  false, ◌&&◌, Bool-cases, inl, inr, if◌then◌else◌, ltb, ◌==◌, length, length-take, bit_and_le, All,
  All-set, All-get_or,
}
use fscc_linux.Kernel.{
  Env, Lock, spin_lock, spin_unlock, tx_lock, Trace, write32, write32_rep, truthy,
}
use fscc_linux.State.{IoFrame, Port, frame_at, emit, no_frame}
use fscc_linux.Offsets.{bc_fifo_l_offset, fifo_offset, fifo_bc_offset, desc_cstop_bit}
use fscc_linux.Utils.{port_offset}
use fscc_linux.Card
use fscc_linux.Port.Access.{get_register, write_through, set_register, set_register_rep}
use fscc_linux.Port.Access.Keeps.{set_register_rep-Keeps, Keeps, Keeps-trans}
use fscc_linux.Io.Dma.Keeps.{get_tfcnt-Keeps, get_txcnt-Keeps}
use fscc_linux.Io.Dma.{get_tfcnt, get_txcnt}
use fscc_linux.Io.Fifo.Send.{
  tx_fifo_size, fifo_room, size_in_fifo, Sending, stops, send_frame, send_loop, fifo_write_data,
}

-- The bytes that a port's calls have put into the register at `address` of BAR 0.
unfoldable pub put_at : ℕ → Trace → ℕ
put_at address [] = 0
put_at address (write32_rep bar offset bytes ∷ t) =
    (if bar == 0 && offset == address then length bytes else 0) + put_at address t
put_at address (write32 bar offset value ∷ t) =
    (if bar == 0 && offset == address then 4 else 0) + put_at address t
put_at address (_ ∷ t) = put_at address t

-- The bytes in the transmit FIFO, by the writes to it.
abbrev pub fifo_bytes : Port → ℕ
fifo_bytes p = put_at (port_offset p.channel 0 fifo_offset) p.trace

-- A count of bytes that the sum of `size_in_fifo` does not carry out of 32 bits.
abbrev pub IsSmall : IoFrame → Type 0
IsSmall f = f.desc.data_count < 2 ^ 32 - 4

set_register_rep-put :
    (bytes : List ℕ) (n : ℕ) (p : Port)
    → fifo_bytes (set_register_rep 0 fifo_offset bytes n p) ≤ fifo_bytes p + (n + 3) / 4 * 4
unfolding set_register_rep Card.set_register_rep put_at
set_register_rep-put bytes n p = ground (arith, length-take (4 * ((n - n % 4) / 4)) bytes)

get_register-put :
    (e : Env) (offset : ℕ) (p : Port) → fifo_bytes (get_register e 0 offset p).1 ≡ fifo_bytes p
unfolding get_register Card.get_register put_at
get_register-put e offset p = refl

get_tfcnt-put : (e : Env) (p : Port) → fifo_bytes (get_tfcnt e p).1 ≡ fifo_bytes p
unfolding get_tfcnt
get_tfcnt-put e p = get_register-put e 0x10 p

get_txcnt-put : (e : Env) (p : Port) → fifo_bytes (get_txcnt e p).1 ≡ fifo_bytes p
unfolding get_txcnt
get_txcnt-put e p = get_register-put e 0x0c p

size_in_fifo-ge : (n : ℕ) → n < 2 ^ 32 - 4 → (n + 3) / 4 * 4 ≤ size_in_fifo n
unfolding size_in_fifo
size_in_fifo-ge n small = omega arith

send_frame-put :
    (f : IoFrame) (s : Sending)
    → IsSmall f
    → size_in_fifo f.desc.data_count ≤ s.fifo_space
    → fifo_bytes (send_frame f s).port + (send_frame f s).fifo_space
      ≤ fifo_bytes s.port + s.fifo_space
unfolding send_frame
send_frame-put f s small fits = omega (
  arith,
  set_register_rep-put f.buffer f.desc.data_count s.port,
  size_in_fifo-ge f.desc.data_count small,
)

send_frame-IsSmall :
    (f : IoFrame) (s : Sending)
    → All IsSmall s.port.tx_descriptors
    → All IsSmall (send_frame f s).port.tx_descriptors
unfolding send_frame
send_frame-IsSmall f s h =
    All-set IsSmall
      (set_register_rep 0 fifo_offset f.buffer f.desc.data_count s.port).tx_descriptors
      s.port.fifo_tx_desc
      (record f { desc = record (f.desc) { data_count = 0; control = desc_cstop_bit } })
      (omega arith)
      (rw
        (set_register_rep-Keeps 0 fifo_offset f.buffer f.desc.data_count s.port).same_tx_descriptors
        h)

stops-room :
    (tfcnt : ℕ) (f : IoFrame) (s : Sending)
    → stops tfcnt f s ≡ false
    → size_in_fifo f.desc.data_count ≤ s.fifo_space
unfolding stops
stops-room tfcnt f s more = ground arith

send_loop-put :
    (tfcnt left : ℕ) (s : Sending)
    → All IsSmall s.port.tx_descriptors
    → fifo_bytes (send_loop tfcnt left s).port + (send_loop tfcnt left s).fifo_space
      ≤ fifo_bytes s.port + s.fifo_space
unfolding send_loop
send_loop-put tfcnt zero s h = omega arith
send_loop-put tfcnt (suc left) s h =
    let f = frame_at s.port.tx_descriptors s.port.fifo_tx_desc in
    elim (Bool-cases (stops tfcnt f s)) [
      | inl stop ↦ rw stop (omega arith)
      | inr more ↦ rw more (
          omega (
            arith,
            send_loop-put tfcnt left (send_frame f s) (send_frame-IsSmall f s h),
            send_frame-put f s
                (All-get_or IsSmall s.port.tx_descriptors s.port.fifo_tx_desc no_frame (omega arith)
                  h)
                (stops-room tfcnt f s more),
          ))
    ]

-- The size of a frame goes into a register of its own.
set_register-put :
    (e : Env) (n : ℕ) (p : Port)
    → fifo_bytes (set_register e 0 bc_fifo_l_offset n p).1 ≡ fifo_bytes p
unfolding set_register write_through Card.set_register put_at
set_register-put e n p = ground (arith, apart)
  where
    apart : port_offset p.channel 0 bc_fifo_l_offset ≢ port_offset p.channel 0 fifo_offset
    apart = unfold port_offset in ground arith

get_txcnt-le : (e : Env) (p : Port) → (get_txcnt e p).0 ≤ 8191
unfolding get_txcnt
get_txcnt-le e p = omega (arith, bit_and_le (get_register e 0 fifo_bc_offset p).0 0x1fff0000)

emit_lock-put :
    (l : Lock) (p : Port)
    → (fifo_bytes (emit (spin_lock l) p) ≡ fifo_bytes p)
      × (fifo_bytes (emit (spin_unlock l) p) ≡ fifo_bytes p)
unfolding put_at
emit_lock-put l p = (refl, refl)

fifo_room-le :
    (txcnt : ℕ) → txcnt ≤ 8191 → fifo_room txcnt ≤ tx_fifo_size → fifo_room txcnt ≤ 4095 - txcnt
unfolding fifo_room
fifo_room-le txcnt low h = omega arith

-- What fscc_fifo_write_data puts into the transmit FIFO fits into the room that the count of its
-- bytes leaves of its 4096, and a full FIFO gets nothing, if no descriptor's count is within four
-- of 2^32.
pub fifo_write_data-fits :
    (e : Env) (p : Port)
    → All IsSmall p.tx_descriptors
    → (let txcnt = (get_txcnt e (get_tfcnt e p).1).0 in
        fifo_bytes (fifo_write_data e p).1 ≤ fifo_bytes p + (4095 - txcnt))
unfolding fifo_write_data
fifo_write_data-fits e p small = elim (Bool-cases (ltb 254 (get_tfcnt e p).0)) [
  | inl full ↦ rw full (omega (arith, get_tfcnt-put e p))
  | inr few ↦ rw few (elim (Bool-cases (ltb tx_fifo_size (fifo_room (get_txcnt e p1).0))) [
    | inl over ↦ rw over (omega (arith, counted))
    | inr room ↦ rw room (
        omega (
          arith,
          (emit_lock-put tx_lock ended).1,
          sized s.frame_size s.port,
          send_loop-put (get_tfcnt e p).0 p2.memory.tx_num begun
              (rw (kept.same_tx_descriptors) small),
          (emit_lock-put tx_lock p2).0,
          counted,
          fifo_room-le (get_txcnt e p1).0 (get_txcnt-le e p1) (ground arith),
        ))
  ])
]
  where
    p1 : Port
    p1 = (get_tfcnt e p).1

    p2 : Port
    p2 = (get_txcnt e p1).1

    kept : Keeps p p2
    kept = Keeps-trans (get_tfcnt-Keeps e p) (get_txcnt-Keeps e p1)

    counted : fifo_bytes p2 ≡ fifo_bytes p
    counted = get_txcnt-put e p1 ∙ get_tfcnt-put e p

    begun : Sending
    begun = record {
      port = emit (spin_lock tx_lock) p2;
      fifo_space = fifo_room (get_txcnt e p1).0;
      frame_size = 0;
      data_written = 0;
    }

    s : Sending
    s = send_loop (get_tfcnt e p).0 p2.memory.tx_num begun

    ended : Port
    ended =
        if truthy s.frame_size
        then (set_register e 0 bc_fifo_l_offset s.frame_size s.port).1
        else s.port

    sized :
        (n : ℕ) (q : Port)
        → fifo_bytes (if truthy n then (set_register e 0 bc_fifo_l_offset n q).1 else q)
          ≡ fifo_bytes q
    sized n q = elim (Bool-cases (truthy n)) [
      | inl some_size ↦ rw some_size (set_register-put e n q)
      | inr no_size ↦ rw no_size refl
    ]
