-- ===== src/ClockBits/Calculate.antt =====
-- lib/raw/calculate-clock-bits.c: GetICS30703Data and calculate_clock_bits as a whole.
pub mod Outcome
use fscc_linux.Prelude.{
  ℕ, zero, suc, ◌*◌, ◌^◌, false, ◌||◌, if◌then◌else◌, ltb, ◌==◌, Option, none, some, List, ◌++◌,
  take, drop,
}
use fscc_linux.ClockBits.Double.{Double}
use fscc_linux.ClockBits.Search.{Solution, search}
use fscc_linux.ClockBits.Tables.{encode}

abbrev zero_double : Double
zero_double = record { negative = false; units = 0 }

-- `solutiona` and `solutionb` after `memset`
abbrev pub no_solution : Solution
no_solution = record {
  the_one = record {
    target = zero_double;
    freq = zero_double;
    error_ppm = zero_double;
    vco_div = 0;
    ref_div = 0;
    out_div = 0;
    failed = 0;
  };
  the_other = record {
    pdf = zero_double;
    nbw = zero_double;
    ratio = zero_double;
    df = zero_double;
    rs = 0;
    icp = zero_double;
    icpnum = 0;
  };
}

unfoldable pub encode_solution : Solution → ℕ × List ℕ
encode_solution s =
    encode s.the_one.ref_div s.the_one.vco_div s.the_other.rs s.the_other.icpnum s.the_one.out_div

-- What follows the search: its failure returns 2, and `finished` stores the solution and encodes it.
unfoldable pub finish : Option Solution → Solution → List ℕ → ℕ × Solution × List ℕ
finish none stored progdata = (2, stored, progdata)
finish (some s) stored progdata = let (code, p) = encode_solution s in (code, s, p)

-- The result, and what lies behind the pointers `theOne` and `theOther`, and `progdata`.
unfoldable pub get_ics30703_data : ℕ → ℕ → Solution → List ℕ → ℕ × Solution × List ℕ
get_ics30703_data desired ppm stored progdata =
    if ltb desired 15000 || ltb 270000000 desired
    then (1, stored, progdata)
    else finish (search desired ppm) stored progdata

-- `progwords` is what the array of 20 bytes on the stack held. The copy is of 20 bytes.
unfoldable pub calculate_clock_bits : ℕ → ℕ → List ℕ → List ℕ → ℕ × List ℕ
calculate_clock_bits freq ppm progwords progbytes =
    let (t, _, words) = get_ics30703_data freq ppm no_solution progwords in
    if t == 0 then (0, take 20 words ++ drop 20 progbytes) else (1, progbytes)
