-- ===== src/Tests/Clock.antt =====
-- Runs of the clock calculation, and its theorems at concrete inputs.
use fscc_linux.Prelude.{
  ℕ, ◌<◌, ◌-◌, ◌^◌, ◌≡◌, refl, arith, ◌⊎◌, true, ap, inl, inr, List, [], ◌∷◌, some, replicate,
}
use fscc_linux.Port.Clock.{fcr_words}
use fscc_linux.Port.Clock.Generator.{generator_loads, setting_bits}
use fscc_linux.Port.Clock.Shift.{generator_loads-fcr_words}
use fscc_linux.Port.Clock.Bytes.{register_bytes}
use fscc_linux.ClockBits.Double.{
  fabs, sqrt, root_digits, ◌÷d◌, of_nat, decimal, ◌×d◌, ◌-d◌, less, to_int, nearest, width, differ,
  add_signed,
}
use fscc_linux.ClockBits.Search.{
  breaks_rule1, breaks_rule2, is_bad_filter, solution, loop_filter, tenths, frequency, freq_err,
  allowable_error, max_rule1, Solution, next_od, try_od, od_loop, search,
}
use fscc_linux.ClockBits.Decode.{
  Setting, decode, decode_input, decode_vco, decode_resistor, decode_current, decode_output,
  decode_scaled,
}
use fscc_linux.ClockBits.Settings.{IsSetting, setting}
use fscc_linux.ClockBits.RoundTrip.{IsEncoded, decode-encode}
use fscc_linux.ClockBits.Best.{Choice, IsChoice, IsCandidate, HasNone, IsBest, IsOutcome}
use fscc_linux.ClockBits.Best.Dividers.{od_loop-enough}
use fscc_linux.ClockBits.Best.Order.{search_lem}
use fscc_linux.ClockBits.Calculate.{calculate_clock_bits}
use fscc_linux.ClockBits.Calculate.Outcome.{InRange, IsCalculated, calculate_clock_bits_lem}
use fscc_linux.ClockBits.Loaded.{sent, calculated-loaded}

-- 0.1 * 3 is above 0.3, as in any binary64 arithmetic.
three_tenths : less (decimal 3 1) (decimal 1 1 ×d of_nat 3) ≡ true
unfolding less decimal of_nat ◌×d◌ nearest width differ
three_tenths = refl

negative_int : to_int (decimal 5 1 -d decimal 25 1) ≡ 2 ^ 32 - 2
unfolding to_int decimal ◌-d◌ add_signed nearest width differ
negative_int = refl

-- The bytes that the source's comments give for 10 MHz and for 1 MHz: 24 * 65 / (13 * 12) is 10,
-- and 24 * 110 / (6 * 440) is 1.
abbrev ten_mhz : List ℕ
ten_mhz =
    0x12 ∷ 0x20 ∷ 0x07 ∷ 0 ∷ 0 ∷ 0 ∷ 0 ∷ 0 ∷ 0 ∷ 0 ∷ 0 ∷ 0x38 ∷ 0x66 ∷ 0x00 ∷ 0x01 ∷ 0x80 ∷ 0x00
    ∷ 0xff ∷ 0xff ∷ 0xff ∷ []

decode-ten_mhz :
    decode ten_mhz ≡ record { ref_div = 13; vco_div = 65; rs = 64000; icpnum = 250; out_div = 12 }
unfolding decode decode_input decode_vco decode_resistor decode_current decode_output
decode-ten_mhz = refl

abbrev one_mhz : List ℕ
one_mhz =
    0xee ∷ 0xdf ∷ 0x0c ∷ 0 ∷ 0 ∷ 0 ∷ 0 ∷ 0 ∷ 0 ∷ 0 ∷ 0 ∷ 0x9c ∷ 0x1a ∷ 0x43 ∷ 0x01 ∷ 0x00 ∷ 0xf0
    ∷ 0xff ∷ 0xff ∷ 0xff ∷ []

decode-one_mhz :
    decode one_mhz ≡ record { ref_div = 6; vco_div = 110; rs = 52000; icpnum = 625; out_div = 440 }
unfolding decode decode_input decode_vco decode_resistor decode_current decode_output decode_scaled
decode-one_mhz = refl

-- A setting of 270 MHz
abbrev sample : Setting
sample = record { ref_div = 2; vco_div = 45; rs = 64000; icpnum = 500; out_div = 2 }

sample-IsSetting : IsSetting sample
sample-IsSetting = record {
  ref_low = omega arith;
  ref_high = omega arith;
  vco_low = omega arith;
  vco_high = omega arith;
  i = 0;
  i_low = omega arith;
  resistor = refl;
  j = 3;
  j_low = omega arith;
  current = refl;
  visited = record {
    low = omega arith;
    grid = record {
      high = omega arith;
      even = λ above. absurd (omega arith);
      quads = λ above. absurd (omega arith);
      octets = λ above. absurd (omega arith);
    };
  };
}

decode-encode_example : (p : List ℕ) × IsEncoded sample p
decode-encode_example = decode-encode sample sample-IsSetting

od_loop-enough_example :
    (next_od 7 < 7) × (od_loop (try_od 0 270000000 2) 9 7 ≡ od_loop (try_od 0 270000000 2) 7 7)
od_loop-enough_example = od_loop-enough (try_od 0 270000000 2) 9 7 (omega arith) (omega arith)

search_lem_example : IsOutcome 1000000 3 (search 1000000 3)
search_lem_example = search_lem 1000000 3

abbrev array : List ℕ
array = replicate 20 0

calculate_clock_bits_lem_example :
    IsCalculated 1000000 3 array (calculate_clock_bits 1000000 3 array array)
calculate_clock_bits_lem_example = calculate_clock_bits_lem 1000000 3 array array (omega arith)

calculated-loaded_example :
    (let (code, p) = calculate_clock_bits 1000000 3 array array in
      ((code ≡ 1) × ((¬ InRange 1000000) ⊎ HasNone 1000000 3))
      ⊎ ((s : Solution) × (bits : List ℕ) × (code ≡ 0)
          × IsBest 1000000 3 s
          × (generator_loads 1 (fcr_words 1 0xffffffff (sent 0x0f 7 p)) ≡ some bits)
          × (decode (register_bytes 20 bits) ≡ setting s)))
calculated-loaded_example =
    calculated-loaded 1000000 3 1 0xffffffff 0x0f 7 array array (omega arith) refl

generator_loads-fcr_words_example :
    generator_loads 1 (fcr_words 1 0xffffffff ten_mhz) ≡ some (setting_bits ten_mhz 20)
generator_loads-fcr_words_example = generator_loads-fcr_words 1 0xffffffff ten_mhz

-- The setting of the source's comment for 1 MHz is a candidate, with its resistor and current.
abbrev one_mhz_choice : Choice
one_mhz_choice = record { r = 6; od = 440; v = 110; i = 1; j = 4 }

one_mhz-IsChoice : IsChoice 1000000 3 one_mhz_choice
unfolding breaks_rule1 breaks_rule2 is_bad_filter solution loop_filter tenths frequency freq_err
    allowable_error max_rule1 less decimal of_nat fabs sqrt root_digits to_int add_signed nearest
    width differ ◌×d◌ ◌÷d◌ ◌-d◌
one_mhz-IsChoice = record {
  r_low = omega arith;
  r_high = omega arith;
  rule2 = refl;
  visited = record {
    low = omega arith;
    grid = record {
      high = omega arith;
      even = λ above. absurd (omega (arith, above));
      quads = λ above. absurd (omega (arith, above));
      octets = λ above. absurd (omega (arith, above));
    };
  };
  v_low = omega arith;
  v_high = omega arith;
  rule1 = refl;
  accurate = refl;
  i_low = omega arith;
  j_low = omega arith;
  filter = refl;
}

one_mhz-IsCandidate : IsCandidate 1000000 3 one_mhz_choice
unfolding decimal of_nat allowable_error add_signed nearest width differ ◌×d◌ ◌÷d◌ ◌-d◌
one_mhz-IsCandidate = record { choice = one_mhz-IsChoice; positive = refl; reached = omega arith }

-- So the calculation for 1 MHz does not fail.
one_mhz_found : (calculate_clock_bits 1000000 3 array array).0 ≡ 0
one_mhz_found = elim (calculate_clock_bits_lem 1000000 3 array array (omega arith)) [
  | inl (e, inl out) ↦ absurd (out (omega arith, omega arith))
  | inl (e, inr missed) ↦ absurd (missed 3 (omega arith) one_mhz_choice one_mhz-IsCandidate)
  | inr (p, range, k, e) ↦ ap (λ r. r.0) e
]
