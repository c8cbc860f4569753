-- ===== src/ClockBits/Calculate/Outcome.antt =====
-- lib/raw/calculate-clock-bits.c: what calculate_clock_bits returns, and what it stores.
use fscc_linux.Prelude.{
  ℕ, ◌-◌, ◌^◌, ◌≤◌, ◌<◌, ◌≡◌, refl, arith, ◌⊎◌, inl, inr, false, Bool-cases, Option, none, some,
  ltb, List, ◌++◌, length, drop, take_all, All,
}
use fscc_linux.ClockBits.Search.{Solution, search, solution, loop_filter}
use fscc_linux.ClockBits.Decode.{decode}
use fscc_linux.ClockBits.Settings.{IsSetting, setting}
use fscc_linux.ClockBits.RoundTrip.{decode-encode}
use fscc_linux.ClockBits.Best.{Choice, IsChoice, HasNone, IsBestAt, IsBest, IsOutcome}
use fscc_linux.ClockBits.Best.Order.{search_lem}
use fscc_linux.ClockBits.Calculate.{
  encode_solution, finish, get_ics30703_data, calculate_clock_bits,
}

choice-IsSetting :
    (desired ppm : ℕ) (c : Choice)
    → IsChoice desired ppm c
    → IsSetting (setting (solution desired c.r c.od c.v c.i c.j))
unfolding solution loop_filter
choice-IsSetting desired ppm c k = record {
  ref_low = k.r_low;
  ref_high = k.r_high;
  vco_low = k.v_low;
  vco_high = k.v_high;
  i = c.i;
  i_low = k.i_low;
  resistor = refl;
  j = c.j;
  j_low = k.j_low;
  current = refl;
  visited = k.visited;
}

best-IsSetting : (desired ppm : ℕ) (s : Solution) → IsBestAt desired ppm s → IsSetting (setting s)
best-IsSetting desired ppm s b = rw b.stored (choice-IsSetting desired ppm b.choice b.is_choice)

abbrev pub InRange : ℕ → Type 0
InRange freq = (15000 ≤ freq) × (freq ≤ 270000000)

-- The 20 bytes of a best solution.
pub record IsProgrammed (freq ppm : ℕ) (p : List ℕ) : Type 0 where
  pub best : Solution
  pub is_best : IsBest freq ppm best
  pub bytes : length p ≡ 20
  pub small : All (λ b. b < 256) p
  pub decoded : decode p ≡ setting best

abbrev pub IsCalculated : ℕ → ℕ → List ℕ → ℕ × List ℕ → Type 0
IsCalculated freq ppm progbytes result =
    ((result ≡ (1, progbytes)) × ((¬ InRange freq) ⊎ HasNone freq ppm))
    ⊎ ((p : List ℕ) × InRange freq
        × IsProgrammed freq ppm p
        × (result ≡ (0, p ++ drop 20 progbytes)))

calculated :
    (freq ppm : ℕ) (progwords progbytes : List ℕ) (o : Option Solution)
    → InRange freq
    → search freq ppm ≡ o
    → IsOutcome freq ppm o
    → IsCalculated freq ppm progbytes (calculate_clock_bits freq ppm progwords progbytes)
unfolding calculate_clock_bits get_ics30703_data finish encode_solution
calculated freq ppm progwords progbytes none (low, high) e missed =
    let l : ltb freq 15000 ≡ false = ground arith in
    let h : ltb 270000000 freq ≡ false = ground arith in inl (rw (l, h, e) refl, inr missed)
calculated freq ppm progwords progbytes (some s) (low, high) e best =
    let l : ltb freq 15000 ≡ false = ground arith in
    let h : ltb 270000000 freq ≡ false = ground arith in
    let (p, (coded, n, small, d)) =
      decode-encode (setting s) (best-IsSetting freq best.ppm s best.best) in
    inr (
      p,
      (low, high),
      record { best = s; is_best = best; bytes = n; small = small; decoded = d },
      rw (l, h, e, coded, take_all 20 p (omega (arith, n))) refl,
    )

-- What calculate_clock_bits comes to, for every frequency, every accuracy below 2^64 - 1 and
-- every array: it stores 20 bytes and returns 0, and what the clock generator reads in them is a
-- setting that keeps its rules, is as accurate as asked, and that no candidate is better than; or
-- it returns 1 and leaves the array alone, and then the frequency is out of range, or no accuracy
-- up to the requested one has a candidate, a setting that keeps the rules, is as accurate as asked
-- and does not lie below the lowest frequency allowed.
pub calculate_clock_bits_lem :
    (freq ppm : ℕ) (progwords progbytes : List ℕ)
    → ppm < 2 ^ 64 - 1
    → IsCalculated freq ppm progbytes (calculate_clock_bits freq ppm progwords progbytes)
unfolding calculate_clock_bits get_ics30703_data
calculate_clock_bits_lem freq ppm progwords progbytes ends = elim (Bool-cases (ltb freq 15000)) [
  | inl under ↦ inl (rw under refl, inl (λ k. ground arith))
  | inr low ↦ elim (Bool-cases (ltb 270000000 freq)) [
    | inl over ↦ inl (rw (low, over) refl, inl (λ k. ground arith))
    | inr high ↦
        calculated freq ppm progwords progbytes (search freq ppm) (ground arith, ground arith) refl
          (search_lem freq ppm)
  ]
]
