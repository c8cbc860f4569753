-- ===== src/ClockBits/Search.antt =====
-- lib/raw/calculate-clock-bits.c: the search of GetICS30703Data for dividers and a loop filter.
-- `none` is `continue`, and `some` the jump to `finished`.
use fscc_linux.Prelude.{
  ℕ, zero, suc, ◌+◌, ◌-◌, ◌*◌, ◌%◌, ◌^◌, Bool, ◌&&◌, ◌||◌, if◌then◌else◌, ltb, leb, ◌==◌, Option,
  none, some, List, [], ◌∷◌, get_or, or_else, first_from,
}
use fscc_linux.ClockBits.Double.{
  Double, of_nat, decimal, ◌×d◌, ◌÷d◌, ◌-d◌, fabs, sqrt, less, to_int,
}

pub record ResultStruct : Type 0 where
  pub target : Double
  pub freq : Double
  pub error_ppm : Double
  pub vco_div : ℕ
  pub ref_div : ℕ
  pub out_div : ℕ
  pub failed : ℕ

pub record IcpRsStruct : Type 0 where
  pub pdf : Double
  pub nbw : Double
  pub ratio : Double
  pub df : Double
  pub rs : ℕ
  pub icp : Double
  pub icpnum : ℕ

-- What the search stores through `theOne` and `theOther`.
pub record Solution : Type 0 where
  pub the_one : ResultStruct
  pub the_other : IcpRsStruct

-- The crystal, and the range of the input divider that goes with it.
abbrev pub inputfreq : Double
inputfreq = of_nat 24000000

abbrev pub min_r : ℕ
min_r = 1

abbrev pub max_r : ℕ
max_r = 1200

abbrev pub min_v : ℕ
min_v = 12

abbrev pub max_v : ℕ
max_v = 2055

-- `switch(i)` and `switch(j)` of the loops over the loop filter.
abbrev pub rs_values : List ℕ
rs_values = 64000 ∷ 52000 ∷ 16000 ∷ 4000 ∷ []

abbrev pub icpnum_values : List ℕ
icpnum_values =
    125 ∷ 250 ∷ 375 ∷ 500 ∷ 625 ∷ 750 ∷ 875 ∷ 1000 ∷ 1125 ∷ 1250 ∷ 1500 ∷ 1750 ∷ 1875 ∷ 2000 ∷ 2250
    ∷ 2500 ∷ 2625 ∷ 3000 ∷ 3500 ∷ 4000 ∷ []

-- `tempint`, from `ratio * 10.0`. It is not negative.
unfoldable pub tenths : Double → ℕ
tenths scaled =
    let tempint = to_int scaled in
    if less (scaled -d of_nat tempint) (of_nat 0) then tempint else (tempint + 1) % 2 ^ 32

-- The fields of `IRStruct`; `icp` is `icpnum` hundredths of a microampere.
unfoldable pub loop_filter : ℕ → ℕ → ℕ → ℕ → IcpRsStruct
loop_filter r v rs icpnum =
    let icp = decimal icpnum 8 in
    let pdf = inputfreq ÷d of_nat r in
    let nbw =
      (of_nat rs ×d icp ×d of_nat 310000000) ÷d (of_nat 2 ×d decimal 314159 5 ×d of_nat v) in
    record {
      pdf = pdf;
      nbw = nbw;
      ratio = of_nat (tenths (pdf ÷d nbw ×d of_nat 10)) ÷d of_nat 10;
      df = of_nat rs ÷d of_nat 2 ×d sqrt (icp ×d decimal 93 3 ÷d of_nat v);
      rs = rs;
      icp = icp;
      icpnum = icpnum;
    }

unfoldable pub is_bad_filter : IcpRsStruct → Bool
is_bad_filter s =
    less (of_nat 30) s.ratio
    || less s.ratio (of_nat 7)
    || less (of_nat 2) s.df
    || less s.df (decimal 2 1)

unfoldable pub allowable_error : ℕ → ℕ → Double
allowable_error ppm desired = of_nat (ppm * desired % 2 ^ 64) ÷d of_nat 1000000

-- rule2, on the phase detector's frequency
unfoldable pub breaks_rule2 : ℕ → Bool
breaks_rule2 r =
    let rule2 = inputfreq ÷d of_nat r in less rule2 (of_nat 20000) || less (of_nat 100000000) rule2

-- rule1, on the oscillator's frequency
unfoldable pub max_rule1 : ℕ → ℕ
max_rule1 od =
    if od == 2
    then 540000000
    else if od == 3
    then 720000000
    else if leb 38 od && leb od 1029
    then 570000000
    else 730000000

unfoldable pub breaks_rule1 : ℕ → ℕ → ℕ → Bool
breaks_rule1 r od v =
    let rule1 = inputfreq ×d (of_nat v ÷d of_nat r) in
    less rule1 (of_nat 90000000) || less (of_nat (max_rule1 od)) rule1

unfoldable pub frequency : ℕ → ℕ → ℕ → Double
frequency r od v = inputfreq ×d (of_nat v ÷d (of_nat r ×d of_nat od))

unfoldable pub freq_err : ℕ → ℕ → ℕ → ℕ → Double
freq_err desired r od v = fabs (frequency r od v -d of_nat desired)

unfoldable pub solution : ℕ → ℕ → ℕ → ℕ → ℕ → ℕ → Solution
solution desired r od v i j = record {
  the_one = record {
    target = of_nat desired;
    freq = frequency r od v;
    error_ppm = freq_err desired r od v ÷d of_nat desired ×d of_nat 1000000;
    vco_div = v;
    ref_div = r;
    out_div = od;
    failed = 1;
  };
  the_other = loop_filter r v (get_or rs_values i 0) (get_or icpnum_values j 0);
}

-- The body of the loop over `j`.
unfoldable pub try_icp : ℕ → ℕ → ℕ → ℕ → ℕ → ℕ → Option Solution
try_icp desired r od v i j =
    let s = solution desired r od v i j in if is_bad_filter s.the_other then none else some s

-- The bodies of the loops over `i`, `v`, `od` and `r`, and of a round of `increaseppm`.
unfoldable pub try_rs : ℕ → ℕ → ℕ → ℕ → ℕ → Option Solution
try_rs desired r od v i = first_from (try_icp desired r od v i) 0 20

unfoldable pub try_v : ℕ → ℕ → ℕ → ℕ → ℕ → Option Solution
try_v ppm desired r od v =
    if breaks_rule1 r od v
    then none
    else if less (allowable_error ppm desired) (freq_err desired r od v)
    then none
    else first_from (try_rs desired r od v) 0 4

-- `V_Divstart`, brought into the oscillator divider's range
unfoldable pub clamp : ℕ → ℕ
clamp start = if ltb start min_v then min_v else if ltb max_v start then max_v else start

unfoldable pub v_divstart : ℕ → ℕ → ℕ → ℕ → ℕ
v_divstart ppm desired r od =
    clamp (
      to_int
        ((of_nat desired -d allowable_error ppm desired) ×d of_nat r ×d of_nat od ÷d inputfreq))

unfoldable pub try_od : ℕ → ℕ → ℕ → ℕ → Option Solution
try_od ppm desired r od =
    let start = v_divstart ppm desired r od in
    first_from (try_v ppm desired r od) start (max_v + 1 - start)

unfoldable pub next_od : ℕ → ℕ
next_od od =
    if leb od 1030
    then od - 1
    else if leb od 2060
    then od - 2
    else if leb od 4120
    then od - 4
    else od - 8

-- `while(od > 1)`, on the rounds left
unfoldable pub od_loop : (ℕ → Option Solution) → ℕ → ℕ → Option Solution
od_loop try zero od = none
od_loop try (suc rounds) od =
    if ltb 1 od then or_else (try od) (od_loop try rounds (next_od od)) else none

abbrev pub max_od : ℕ
max_od = 8232

unfoldable pub try_r : ℕ → ℕ → ℕ → Option Solution
try_r ppm desired r = if breaks_rule2 r then none else od_loop (try_od ppm desired r) max_od max_od

unfoldable pub try_ppm : ℕ → ℕ → Option Solution
try_ppm desired ppm = first_from (try_r ppm desired) min_r (max_r + 1 - min_r)

-- `increaseppm`, up to `requestedppm`, which is below 2^64 - 1: there the C loop would not end.
unfoldable pub search : ℕ → ℕ → Option Solution
search desired requestedppm = first_from (try_ppm desired) 0 (requestedppm + 1)
