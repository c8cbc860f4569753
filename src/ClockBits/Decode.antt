-- ===== src/ClockBits/Decode.antt =====
-- The fields that the clock generator reads in the 20 bytes, as its data sheet lays them out.
use fscc_linux.Prelude.{ℕ, ◌+◌, ◌-◌, ◌*◌, ◌/◌, ◌%◌, ◌^◌, if◌then◌else◌, ◌==◌, List, get_or}

-- The input divider: bits 0 and 1 tell its form.
unfoldable pub decode_input : ℕ → ℕ → ℕ
decode_input b0 b1 =
    if b0 % 4 == 0
    then 1
    else if b0 % 4 == 1
    then 2
    else if b0 % 4 == 2
    then 17 - b0 / 4 % 16
    else b0 / 4 + b1 % 32 * 64 + 8

unfoldable pub decode_vco : ℕ → ℕ → ℕ
decode_vco b1 b2 = b1 / 32 + b2 * 8 + 8

unfoldable pub decode_resistor : ℕ → ℕ
decode_resistor b11 =
    let field = b11 / 2 % 4 in
    if field == 0 then 64000 else if field == 1 then 16000 else if field == 2 then 52000 else 4000

-- A base current, from 1.25 uA to 10 uA, and a factor from 1 to 4.
unfoldable pub decode_current : ℕ → ℕ → ℕ → ℕ
decode_current b11 b15 b16 = 125 * (8 - b11 / 8 % 8) * (1 + b15 / 128 + 2 * (b16 % 2))

-- The output divider has three forms: a short list, a complement of five bits, and a product with
-- a power of two.
unfoldable pub decode_listed : ℕ → ℕ → ℕ
decode_listed high b12 =
    if b12 == 0
    then 2 + high
    else if b12 == 4
    then 4 + 2 * high
    else if b12 == 1
    then 5 + 2 * high
    else if b12 == 9
    then 11
    else if b12 == 5
    then 9
    else 13

unfoldable pub decode_scaled : ℕ → ℕ → ℕ
decode_scaled b12 b13 = (2 * (b12 / 32 + b13 % 64 * 8 + 3) + (1 - b12 / 4 % 2)) * 2 ^ (b12 / 8 % 4)

unfoldable pub decode_output : ℕ → ℕ → ℕ → ℕ
decode_output b11 b12 b13 =
    if b12 / 2 % 2 == 0
    then decode_listed (b11 / 128) b12
    else if b11 / 128 == 0
    then 37 - b12 / 4 % 32
    else decode_scaled b12 b13

pub record Setting : Type 0 where
  pub ref_div : ℕ
  pub vco_div : ℕ
  pub rs : ℕ
  pub icpnum : ℕ
  pub out_div : ℕ

unfoldable pub decode : List ℕ → Setting
decode progdata =
    let b : ℕ → ℕ = λ k. get_or progdata k 0 in
    record {
      ref_div = decode_input (b 0) (b 1);
      vco_div = decode_vco (b 1) (b 2);
      rs = decode_resistor (b 11);
      icpnum = decode_current (b 11) (b 15) (b 16);
      out_div = decode_output (b 11) (b 12) (b 13);
    }
