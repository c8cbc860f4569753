-- ===== src/ClockBits/Fields/Filter.antt =====
-- lib/raw/calculate-clock-bits.c: tables 4 and 3, on bytes 11, 15 and 16.
use fscc_linux.Prelude.{
  ℕ, ◌+◌, ◌*◌, ◌/◌, ◌%◌, ◌<◌, ◌≡◌, refl, arith, Bool, true, ◌&&◌, ltb, ◌==◌, get_or, ◌∙◌,
}
use fscc_linux.ClockBits.Search.{rs_values, icpnum_values}
use fscc_linux.ClockBits.Tables.{filter_resistor, charge_pump, and_then}
use fscc_linux.ClockBits.Decode.{decode_resistor, decode_current}
use fscc_linux.ClockBits.Fields.{word, all_below, all_below_lem}

-- Byte 11 after table 4
unfoldable pub resistor_byte : ℕ → ℕ
resistor_byte rs = get_or (filter_resistor rs (word 0 0 0 0 0 0 0 0)).1 11 0

filter_resistor_any :
    (rs a b c y z g h : ℕ)
    → filter_resistor rs (word a b c 0 y z g h)
      ≡ ((filter_resistor rs (word 0 0 0 0 0 0 0 0)).0, word a b c (resistor_byte rs) y z g h)
unfolding filter_resistor resistor_byte
filter_resistor_any rs a b c y z g h = ground arith

-- Byte 11 after table 3, from what it was, and bytes 15 and 16
unfoldable pub pump_byte : ℕ → ℕ → ℕ → ℕ
pump_byte k icpnum f = get_or (charge_pump icpnum (word 0 0 0 f 0 0 0x04 0)).1 k 0

charge_pump_any :
    (icpnum a b c f y z : ℕ)
    → charge_pump icpnum (word a b c f y z 0x04 0) ≡ (
      (charge_pump icpnum (word 0 0 0 f 0 0 0x04 0)).0,
      word a b c (pump_byte 11 icpnum f) y z (pump_byte 15 icpnum f) (pump_byte 16 icpnum f),
    )
unfolding charge_pump pump_byte
charge_pump_any icpnum a b c f y z = ground arith

-- The bytes 11, 15 and 16 that stand for a resistor and a current.
unfoldable pub filter_byte : ℕ → ℕ → ℕ → ℕ
filter_byte k rs icpnum = pump_byte k icpnum (resistor_byte rs)

-- What the bytes have to show for the values of one round of the loops.
unfoldable filter_test : ℕ → ℕ → Bool
filter_test i j =
    let rs = get_or rs_values i 0 in
    let icpnum = get_or icpnum_values j 0 in
    let f = filter_byte 11 rs icpnum in
    (filter_resistor rs (word 0 0 0 0 0 0 0 0)).0 == 0
    && (charge_pump icpnum (word 0 0 0 (resistor_byte rs) 0 0 0x04 0)).0 == 0
    && ltb f 128
    && ltb (filter_byte 15 rs icpnum) 256
    && ltb (filter_byte 16 rs icpnum) 256
    && decode_resistor f == rs
    && decode_current f (filter_byte 15 rs icpnum) (filter_byte 16 rs icpnum) == icpnum

filter_table : all_below 4 (λ i. all_below 20 (filter_test i)) ≡ true
unfolding all_below filter_test filter_byte pump_byte resistor_byte filter_resistor charge_pump
    decode_resistor decode_current
filter_table = refl

filter_test_all : (i j : ℕ) → i < 4 → j < 20 → filter_test i j ≡ true
filter_test_all i j hi hj = ground (
  arith,
  all_below_lem 4 (λ i. all_below 20 (filter_test i)) i filter_table,
  all_below_lem 20 (filter_test i) j,
)

decode_resistor_high : (f high : ℕ) → decode_resistor (f + high * 128) ≡ decode_resistor f
unfolding decode_resistor
decode_resistor_high f high =
    let e : (f + high * 128) / 2 % 4 ≡ f / 2 % 4 = omega arith in rw e refl

decode_current_high : (f g h high : ℕ) → decode_current (f + high * 128) g h ≡ decode_current f g h
unfolding decode_current
decode_current_high f g h high =
    let e : (f + high * 128) / 8 % 8 ≡ f / 8 % 8 = omega arith in rw e refl

module _ (i j : ℕ) (hi : i < 4) (hj : j < 20) where
  abbrev rs : ℕ
  rs = get_or rs_values i 0

  abbrev icpnum : ℕ
  icpnum = get_or icpnum_values j 0

  filter_facts :
      ((filter_resistor rs (word 0 0 0 0 0 0 0 0)).0 ≡ 0)
      × ((charge_pump icpnum (word 0 0 0 (resistor_byte rs) 0 0 0x04 0)).0 ≡ 0)
      × (filter_byte 11 rs icpnum < 128)
      × (decode_resistor (filter_byte 11 rs icpnum) ≡ rs)
      × (decode_current
            (filter_byte 11 rs icpnum)
            (filter_byte 15 rs icpnum)
            (filter_byte 16 rs icpnum)
          ≡ icpnum)
  unfolding filter_test
  filter_facts = ground (arith, filter_test_all i j hi hj)

  pub filter_byte-IsByte : (filter_byte 15 rs icpnum < 256) × (filter_byte 16 rs icpnum < 256)
  unfolding filter_test
  filter_byte-IsByte = ground (arith, filter_test_all i j hi hj)

  pub filter_byte-lt : filter_byte 11 rs icpnum < 128
  filter_byte-lt = let (_, _, below, _, _) = filter_facts in below

  -- Both are read back, whatever the top bit of byte 11.
  pub decode_resistor-filter_byte :
      (high : ℕ) → decode_resistor (filter_byte 11 rs icpnum + high * 128) ≡ rs
  decode_resistor-filter_byte high =
      let (_, _, _, e, _) = filter_facts in decode_resistor_high _ high ∙ e

  pub decode_current-filter_byte :
      (high : ℕ)
      → decode_current
          (filter_byte 11 rs icpnum + high * 128)
          (filter_byte 15 rs icpnum)
          (filter_byte 16 rs icpnum)
        ≡ icpnum
  decode_current-filter_byte high =
      let (_, _, _, _, e) = filter_facts in decode_current_high _ _ _ high ∙ e

  pub filter-word :
      (a b c y z : ℕ)
      → and_then (filter_resistor rs (word a b c 0 y z 0x04 0)) (charge_pump icpnum) ≡ (
        0,
        word a b c
            (filter_byte 11 rs icpnum)
            y
            z
            (filter_byte 15 rs icpnum)
            (filter_byte 16 rs icpnum),
      )
  unfolding filter_byte
  filter-word a b c y z =
      let (e, k, _, _, _) = filter_facts in
      rw (filter_resistor_any rs a b c y z 0x04 0, e)
        (unfold and_then in (rw (charge_pump_any icpnum a b c (resistor_byte rs) y z, k) refl))
