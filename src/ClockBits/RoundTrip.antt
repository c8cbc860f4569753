-- ===== src/ClockBits/RoundTrip.antt =====
-- lib/raw/calculate-clock-bits.c: the 20 bytes as a whole.
use fscc_linux.Prelude.{
  ℕ, zero, suc, ◌+◌, ◌-◌, ◌*◌, ◌/◌, ◌%◌, ◌≤◌, ◌<◌, ◌≡◌, refl, arith, List, length, All, get_or, ◌∙◌,
  sym, ap₂,
}
use fscc_linux.ClockBits.Search.{rs_values, icpnum_values}
use fscc_linux.ClockBits.Tables.{and_then, encode, filter_resistor, charge_pump, output_divider}
use fscc_linux.ClockBits.Decode.{Setting, decode}
use fscc_linux.ClockBits.Settings.{IsSetting, IsVisited}
use fscc_linux.ClockBits.Fields.{word, decode-word, word-IsByte}
use fscc_linux.ClockBits.Fields.Dividers.{
  low_byte, high_byte, input_divider-word, high_byte-lt, low_byte-lt, decode_input-low_byte,
  vco_divider-word, decode_vco-high,
}
use fscc_linux.ClockBits.Fields.Filter.{
  filter_byte, filter_byte-lt, filter_byte-IsByte, filter-word, decode_resistor-filter_byte,
  decode_current-filter_byte,
}
use fscc_linux.ClockBits.Fields.Output.{output_divider-word, decode_output_top}

-- The bytes that `encode` ends with, and what they stand for.
abbrev pub IsEncoded : Setting → List ℕ → Type 0
IsEncoded s p =
    (encode s.ref_div s.vco_div s.rs s.icpnum s.out_div ≡ (0, p))
    × (length p ≡ 20)
    × All (λ b. b < 256) p
    × (decode p ≡ s)

and_then_assoc :
    (r : ℕ × List ℕ) (f g : List ℕ → ℕ × List ℕ)
    → and_then r (λ p. and_then (f p) g) ≡ and_then (and_then r f) g
unfolding and_then
and_then_assoc (zero, p) f g = refl
and_then_assoc (suc c, p) f g = refl

-- The result of each table in turn.
encode_steps :
    (d v i j od y z top : ℕ)
    → 1 ≤ d
    → d ≤ 1200
    → 12 ≤ v
    → v ≤ 2055
    → (hi : i < 4) → (hj : j < 20)
    → (let rs = get_or rs_values i 0 in
        let icpnum = get_or icpnum_values j 0 in
        let a = low_byte d in
        let b = high_byte d + (v - 8) % 8 * 32 in
        let c = (v - 8) / 8 in
        let f = filter_byte 11 rs icpnum in
        let g = filter_byte 15 rs icpnum in
        let h = filter_byte 16 rs icpnum in
        output_divider od (word a b c f 0 0x40 g h) ≡ (0, word a b c (f + top * 128) y z g h)
        → encode d v rs icpnum od ≡ (0, word a b c (f + top * 128) y z g h))
unfolding encode and_then
encode_steps d v i j od y z top d_low d_high v_low v_high hi hj last =
    let a = low_byte d in
    let b = high_byte d + (v - 8) % 8 * 32 in
    let c = (v - 8) / 8 in
    rw (input_divider-word d 0 0 0 0x40 0x04 0 d_low (omega arith)) (
      rw
        (vco_divider-word v a (high_byte d) 0 0 0x40 0x04 0 v_low v_high
          (high_byte-lt d d_low (omega arith)))
        (and_then_assoc (filter_resistor (get_or rs_values i 0) (word a b c 0 0 0x40 0x04 0))
            (charge_pump (get_or icpnum_values j 0)) (output_divider od)
          ∙ rw (filter-word i j hi hj a b c 0 0x40) last))

encode_values :
    (d v i j od : ℕ)
    → 1 ≤ d
    → d ≤ 1200
    → 12 ≤ v
    → v ≤ 2055
    → i < 4
    → j < 20
    → IsVisited od
    → (p : List ℕ) × IsEncoded
        (record {
          ref_div = d;
          vco_div = v;
          rs = get_or rs_values i 0;
          icpnum = get_or icpnum_values j 0;
          out_div = od;
        })
        p
encode_values d v i j od d_low d_high v_low v_high hi hj visited =
    let rs = get_or rs_values i 0 in
    let icpnum = get_or icpnum_values j 0 in
    let a = low_byte d in
    let k = (v - 8) % 8 in
    let b = high_byte d + k * 32 in
    let c = (v - 8) / 8 in
    let f = filter_byte 11 rs icpnum in
    let g = filter_byte 15 rs icpnum in
    let h = filter_byte 16 rs icpnum in
    let (top, y, z, last, (output, top_low, y_low, z_low)) =
      output_divider-word od a b c f g h (filter_byte-lt i j hi hj) visited in
    let b_low = high_byte-lt d d_low (omega arith) in
    let f_low = filter_byte-lt i j hi hj in
    let (g_low, h_low) = filter_byte-IsByte i j hi hj in
    (
      word a b c (f + top * 128) y z g h,
      (
        encode_steps d v i j od y z top d_low d_high v_low v_high hi hj last,
        refl,
        word-IsByte a b c (f + top * 128) y z g h (low_byte-lt d d_low (omega arith)) (omega arith)
            (omega arith) (omega arith) y_low z_low g_low h_low,
        decode-word a b c (f + top * 128) y z g h
            ∙ rw
                (
                  decode_input-low_byte d k d_low (omega arith),
                  decode_vco-high v (high_byte d) v_low (high_byte-lt d d_low (omega arith)),
                  decode_resistor-filter_byte i j hi hj top,
                  decode_current-filter_byte i j hi hj top,
                  decode_output_top f top y z f_low,
                  output,
                )
                refl,
      ),
    )

-- The encoding succeeds on every setting that the search can try: it gives 20 bytes, and the
-- fields that the clock generator reads in them are those of the setting.
pub decode-encode : (s : Setting) → IsSetting s → (p : List ℕ) × IsEncoded s p
decode-encode s k =
    let (p, (e, n, small, d)) =
      encode_values s.ref_div s.vco_div k.i k.j s.out_div k.ref_low k.ref_high k.vco_low k.vco_high
        k.i_low k.j_low k.visited in
    let same : record s { rs = get_or rs_values k.i 0; icpnum = get_or icpnum_values k.j 0 } ≡ s =
      ap₂ (λ r c. record s { rs = r; icpnum = c }) (sym k.resistor) (sym k.current) in
    (p, (rw (k.resistor, k.current) e, n, small, d ∙ same))
