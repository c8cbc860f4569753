-- ===== src/ClockBits/Tables.antt =====
-- lib/raw/calculate-clock-bits.c: the tables of GetICS30703Data, which put the dividers and the
-- loop filter into the 20 bytes of `progdata`. A step gives the function's result, 0 while it goes
-- on, and the bytes.
use fscc_linux.Prelude.{
  ℕ, zero, suc, ◌+◌, ◌-◌, ◌*◌, ◌/◌, ◌%◌, ◌^◌, Bool, ◌&&◌, ◌||◌, if◌then◌else◌, leb, ◌==◌, Option,
  none, some, List, [], ◌∷◌, get_or, set, bit_and, bit_or, first_from,
}
use mathlib.Core.Option

-- `progdata[k] |= mask`, and with `&=`
abbrev pub or_at : ℕ → ℕ → List ℕ → List ℕ
or_at k mask progdata = set progdata k (bit_or (get_or progdata k 0) mask)

abbrev pub and_at : ℕ → ℕ → List ℕ → List ℕ
and_at k mask progdata = set progdata k (bit_and (get_or progdata k 0) mask)

-- `~n << 2` on an unsigned long
abbrev pub not_shifted : ℕ → ℕ
not_shifted n = (2 ^ 64 - 1 - n) * 2 ^ 2 % 2 ^ 64

-- The bytes before the tables, whatever `progdata` held.
abbrev pub initial : List ℕ
initial = or_at 13 0x40 (
    or_at 14 0x01 (
      0 ∷ 0 ∷ 0 ∷ 0 ∷ 0 ∷ 0 ∷ 0 ∷ 0 ∷ 0 ∷ 0 ∷ 0 ∷ 0 ∷ 0 ∷ 0 ∷ 0 ∷ 0x04 ∷ 0x00 ∷ 0xff ∷ 0xff ∷ 0xff
      ∷ []))

-- Table 1: Input Divider
unfoldable pub input_divider : ℕ → List ℕ → ℕ × List ℕ
input_divider d progdata =
    if d == 1
    then (0, and_at 1 0xf0 (and_at 0 0xfc progdata))
    else if d == 2
    then (0, and_at 1 0xf0 (or_at 0 0x01 (and_at 0 0xfc progdata)))
    else if leb 3 d && leb d 17
    then (0, or_at 0 0x02 (and_at 0 0x3e (set progdata 0 (not_shifted (d - 2) % 2 ^ 8))))
    else if leb 18 d && leb d 2055
    then (let temp = (d - 8) * 2 ^ 2 in
        (0, or_at 0 0x03 (set (set progdata 0 (temp % 2 ^ 8)) 1 (temp / 2 ^ 8 % 2 ^ 8))))
    else (3, progdata)

-- Table 2: VCO Divider
unfoldable pub vco_divider : ℕ → List ℕ → ℕ × List ℕ
vco_divider v progdata =
    if leb 12 v && leb v 2055
    then (let temp = (v - 8) * 2 ^ 5 in
        (0, or_at 2 (temp / 2 ^ 8 % 2 ^ 8) (or_at 1 (temp % 2 ^ 8) progdata)))
    else (4, progdata)

-- Table 4: Loop Filter Resistor
unfoldable pub filter_resistor : ℕ → List ℕ → ℕ × List ℕ
filter_resistor rs progdata =
    if rs == 64000
    then (0, and_at 11 0xf9 progdata)
    else if rs == 52000
    then (0, or_at 11 0x04 (and_at 11 0xf9 progdata))
    else if rs == 16000
    then (0, or_at 11 0x02 (and_at 11 0xf9 progdata))
    else if rs == 4000
    then (0, or_at 11 0x06 progdata)
    else (5, progdata)

-- Table 3: Charge Pump Current
unfoldable pub charge_pump : ℕ → List ℕ → ℕ × List ℕ
charge_pump icpnum progdata =
    if icpnum == 125
    then (0, and_at 16 0xfe (and_at 15 0x7f (or_at 11 0x38 progdata)))
    else if icpnum == 250
    then (0, and_at 16 0xfe (or_at 15 0x80 (or_at 11 0x38 progdata)))
    else if icpnum == 375
    then (0, or_at 16 0x01 (and_at 15 0x7f (or_at 11 0x38 progdata)))
    else if icpnum == 500
    then (0, or_at 16 0x01 (or_at 15 0x80 (or_at 11 0x38 progdata)))
    else if icpnum == 625
    then (0, and_at 16 0xfe (and_at 15 0x7f (and_at 11 0xdf (or_at 11 0x18 progdata))))
    else if icpnum == 750
    then (0, and_at 16 0xfe (and_at 15 0x7f (and_at 11 0xd7 (or_at 11 0x10 progdata))))
    else if icpnum == 875
    then (0, and_at 16 0xfe (and_at 15 0x7f (and_at 11 0xcf (or_at 11 0x08 progdata))))
    else if icpnum == 1000
    then (0, and_at 16 0xfe (and_at 15 0x7f (and_at 11 0xc7 progdata)))
    else if icpnum == 1125
    then (0, or_at 16 0x01 (and_at 15 0x7f (and_at 11 0xef (or_at 11 0x28 progdata))))
    else if icpnum == 1250
    then (0, and_at 16 0xfe (or_at 15 0x80 (and_at 11 0xdf (or_at 11 0x18 progdata))))
    else if icpnum == 1500
    then (0, or_at 16 0x01 (or_at 15 0x80 (and_at 11 0xef (or_at 11 0x28 progdata))))
    else if icpnum == 1750
    then (0, and_at 16 0xfe (or_at 15 0x80 (and_at 11 0xcf (or_at 11 0x08 progdata))))
    else if icpnum == 1875
    then (0, or_at 16 0x01 (and_at 15 0x7f (and_at 11 0xdf (or_at 11 0x18 progdata))))
    else if icpnum == 2000
    then (0, and_at 16 0xfe (or_at 15 0x80 (and_at 11 0xc7 progdata)))
    else if icpnum == 2250
    then (0, or_at 16 0x01 (and_at 15 0x7f (or_at 11 0x10 progdata)))
    else if icpnum == 2500
    then (0, or_at 16 0x01 (or_at 15 0x80 (and_at 11 0xdf (or_at 11 0x18 progdata))))
    else if icpnum == 2625
    then (0, or_at 16 0x01 (and_at 15 0x7f (and_at 11 0xcf (or_at 11 0x08 progdata))))
    else if icpnum == 3000
    then (0, or_at 16 0x01 (and_at 15 0x7f (and_at 11 0xc7 progdata)))
    else if icpnum == 3500
    then (0, or_at 16 0x01 (or_at 15 0x80 (and_at 11 0xcf (or_at 11 0x08 progdata))))
    else if icpnum == 4000
    then (0, or_at 16 0x01 (or_at 15 0x80 (and_at 11 0xc7 progdata)))
    else (6, progdata)

-- The body of the loop of Table 5: `none` where no branch breaks out of it.
unfoldable pub try_x : ℕ → List ℕ → ℕ → Option (List ℕ)
try_x od progdata i =
    let temp = i * 2 ^ 5 in
    let placed = or_at 13 (temp / 2 ^ 8 % 2 ^ 8) (or_at 12 (temp % 2 ^ 8) progdata) in
    if od == ((i + 3) * 2 + 0) * 1
    then some (or_at 12 0x04 (and_at 12 0xe7 placed))
    else if od == ((i + 3) * 2 + 0) * 2
    then some (or_at 12 0x0c (and_at 12 0xef placed))
    else if od == ((i + 3) * 2 + 0) * 4
    then some (or_at 12 0x14 (and_at 12 0xf7 placed))
    else if od == ((i + 3) * 2 + 0) * 8
    then some (or_at 12 0x1c placed)
    else if od == ((i + 3) * 2 + 1) * 1
    then some (and_at 12 0xe3 placed)
    else if od == ((i + 3) * 2 + 1) * 2
    then some (or_at 12 0x08 (and_at 12 0xeb placed))
    else if od == ((i + 3) * 2 + 1) * 4
    then some (or_at 12 0x10 (and_at 12 0xf7 placed))
    else if od == ((i + 3) * 2 + 1) * 8
    then some (or_at 12 0x18 (and_at 12 0xfb placed))
    else none

-- The loop, and what follows it
unfoldable pub scaled_divider : ℕ → List ℕ → List ℕ
scaled_divider od progdata =
    let found = Option.get_or (first_from (try_x od progdata) 0 512) progdata in
    or_at 12 0x02 (and_at 12 0xfe (or_at 11 0x80 found))

-- `case 8: case 10: case 12: case 14: ... case 37:`
unfoldable pub is_short : ℕ → Bool
is_short od = od == 8 || od == 10 || od == 12 || leb 14 od && leb od 37

unfoldable pub short_divider : ℕ → List ℕ → List ℕ
short_divider od progdata =
    let p = set progdata 12 (bit_and (not_shifted (od - 6) % 2 ^ 8) 0x7f) in
    and_at 13 0xc0 (or_at 12 0x02 (and_at 12 0xfe (and_at 11 0x7f p)))

-- `switch(OutputDividerOut1)`
unfoldable pub divider_bits : ℕ → List ℕ → List ℕ
divider_bits od progdata =
    if od == 2
    then and_at 13 0xc0 (and_at 12 0x00 (and_at 11 0x7f progdata))
    else if od == 3
    then and_at 13 0xc0 (and_at 12 0x00 (or_at 11 0x80 progdata))
    else if od == 4
    then and_at 13 0xc0 (or_at 12 0x04 (and_at 11 0x7f progdata))
    else if od == 5
    then and_at 13 0xc0 (or_at 12 0x01 (and_at 11 0x7f progdata))
    else if od == 6
    then and_at 13 0xc0 (or_at 12 0x04 (or_at 11 0x80 progdata))
    else if od == 7
    then and_at 13 0xc0 (or_at 12 0x01 (or_at 11 0x80 progdata))
    else if od == 11
    then and_at 13 0xc0 (or_at 12 0x09 (or_at 11 0x80 progdata))
    else if od == 9
    then and_at 13 0xc0 (or_at 12 0x05 (or_at 11 0x80 progdata))
    else if od == 13
    then and_at 13 0xc0 (or_at 12 0x0d (or_at 11 0x80 progdata))
    else if is_short od
    then short_divider od progdata
    else scaled_divider od progdata

-- Table 5: Output Divider for Output 1
unfoldable pub output_divider : ℕ → List ℕ → ℕ × List ℕ
output_divider od progdata =
    if leb 2 od && leb od 8232 then (0, divider_bits od progdata) else (7, progdata)

-- One step after another: a result other than 0 is returned at once.
unfoldable pub and_then : ℕ × List ℕ → (List ℕ → ℕ × List ℕ) → ℕ × List ℕ
and_then (zero, progdata) next = next progdata
and_then (suc code, progdata) next = (suc code, progdata)

-- What GetICS30703Data does from `finished` on.
unfoldable pub encode : ℕ → ℕ → ℕ → ℕ → ℕ → ℕ × List ℕ
encode d v rs icpnum od = and_then (input_divider d initial) (λ p1.
    and_then (vco_divider v p1) (λ p2.
      and_then (filter_resistor rs p2)
        (λ p3. and_then (charge_pump icpnum p3) (output_divider od))))
