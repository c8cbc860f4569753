-- ===== src/Port/Access.antt =====
-- port.c: register access through a port, which moves the offset to the port's own registers and
-- keeps `register_storage`, and the values that the driver reads out of them. A port pointer is
-- never null here, so the `return_if_untrue (port)` lines do not show.
pub mod Keeps
pub mod Stall
use fscc_linux.Prelude.{
  ℕ, zero, suc, ◌+◌, ◌-◌, ◌*◌, ◌/◌, ◌%◌, ◌^◌, List, Bool, true, false, not, ◌&&◌, ◌||◌,
  if◌then◌else◌, ltb, leb, ◌==◌, bit_and, set, get_or,
}
use fscc_linux.Kernel.{Env, Errno, etimedout, Ret, ok, err, truthy}
use fscc_linux.Offsets.{
  cmdr_offset, star_offset, vstr_offset, fcr_offset, ccr0_offset, ccr2_offset, ce_bit,
}
use fscc_linux.State.{Port}
use fscc_linux.Utils.{port_offset}
use fscc_linux.Card

unfoldable pub get_register : Env → ℕ → ℕ → Port → ℕ × Port
get_register e bar register_offset p =
    if leb bar 2
    then (let (value, t) =
          Card.get_register e bar (port_offset p.channel bar register_offset) p.trace in
        (value, record p { trace = t }))
    else (0, p)

-- DEFAULT_TIMEOUT_VALUE
abbrev pub default_timeout_value : ℕ
default_timeout_value = 50

-- The loop of fscc_port_timed_out, with the rounds that are left.
unfoldable pub poll_star : Env → ℕ → Port → Bool × Port
poll_star e zero p = (true, p)
poll_star e (suc left) p =
    let (star_value, p1) = get_register e 0 star_offset p in
    let rest = poll_star e left p1 in if bit_and star_value ce_bit == 0 then (false, p1) else rest

unfoldable pub timed_out : Env → Port → Bool × Port
timed_out e p = poll_star e default_timeout_value p

-- The index of FCR in `struct fscc_registers`.
abbrev pub fcr_index : ℕ
fcr_index = 23

-- The write itself, and the copy in `register_storage`.
unfoldable pub write_through : ℕ → ℕ → ℕ → Port → Port
write_through bar register_offset value p = record p {
  trace = Card.set_register bar (port_offset p.channel bar register_offset) value p.trace;
  register_storage =
      if bar == 0
      then set p.register_storage (register_offset / 4) value
      else if register_offset == fcr_offset
      then set p.register_storage fcr_index value
      else p.register_storage;
}

unfoldable pub set_register : Env → ℕ → ℕ → ℕ → Port → Ret × Port
set_register e bar register_offset value p =
    if leb bar 2
    then (if register_offset == cmdr_offset && p.ignore_timeout == 0
        then (let (stalled, p1) = timed_out e p in
            if stalled
            then (err etimedout, p1)
            else (ok 1, write_through bar register_offset value p1))
        else (ok 1, write_through bar register_offset value p))
    else (ok 0, p)

unfoldable pub get_register_rep : Env → ℕ → ℕ → ℕ → Port → List ℕ × Port
get_register_rep e bar register_offset byte_count p =
    if leb bar 2 && ltb 0 byte_count
    then (let (bytes, t) =
          Card.get_register_rep e bar (port_offset p.channel bar register_offset) byte_count
            p.trace in
        (bytes, record p { trace = t }))
    else (List.[], p)

unfoldable pub set_register_rep : ℕ → ℕ → List ℕ → ℕ → Port → Port
set_register_rep bar register_offset bytes byte_count p =
    if leb bar 2 && ltb 0 byte_count
    then record p {
      trace =
          Card.set_register_rep bar (port_offset p.channel bar register_offset) bytes byte_count
            p.trace;
    }
    else p

unfoldable pub get_frev : Env → Port → ℕ × Port
get_frev e p =
    let (vstr_value, p1) = get_register e 0 vstr_offset p in (bit_and vstr_value 0x000000FF, p1)

unfoldable pub get_prev : Env → Port → ℕ × Port
get_prev e p =
    let (vstr_value, p1) = get_register e 0 vstr_offset p in
    (bit_and vstr_value 0x0000FF00 / 2 ^ 8, p1)

unfoldable pub get_pdev : Env → Port → ℕ × Port
get_pdev e p =
    let (vstr_value, p1) = get_register e 0 vstr_offset p in
    (bit_and vstr_value 0xFFFF0000 / 2 ^ 16, p1)

unfoldable pub get_ce : Env → Port → ℕ × Port
get_ce e p =
    let (star_value, p1) = get_register e 0 star_offset p in
    (bit_and star_value 0x00040000 / 2 ^ 18, p1)

-- `register_storage` by offset.
abbrev pub stored : Port → ℕ → ℕ
stored p offset = get_or p.register_storage (offset / 4) 0

unfoldable pub is_streaming : Port → Bool
is_streaming p =
    let transparent_mode = bit_and (stored p ccr0_offset) 0x3 == 0x2 in
    let xsync_mode = bit_and (stored p ccr0_offset) 0x3 == 0x1 in
    let rlc_mode = truthy (bit_and (stored p ccr2_offset) 0xffff0000) in
    let fsc_mode = truthy (bit_and (stored p ccr0_offset) 0x700) in
    let ntb = bit_and (stored p ccr0_offset) 0x70000 / 2 ^ 16 in
    (transparent_mode || xsync_mode) && not (rlc_mode || fsc_mode || truthy ntb)

-- fscc_port_is_dma, an `unsigned`.
unfoldable pub is_dma : Port → ℕ
is_dma p = if truthy p.force_fifo then 0 else p.dma_capable

-- fscc_port_using_async: it refreshes FCR, which the serial driver shares.
unfoldable pub using_async : Env → Port → ℕ × Port
using_async e p =
    let (fcr, p1) = get_register e 2 fcr_offset p in
    let p2 = record p1 { register_storage = set p1.register_storage fcr_index fcr } in
    if p.channel == 0
    then (bit_and fcr 0x01000000, p2)
    else if p.channel == 1
    then (bit_and fcr 0x02000000, p2)
    else (0, p2)
