-- ===== src/ClockBits/Best/Found.antt =====
-- lib/raw/calculate-clock-bits.c: the loops over the loop filter and the oscillator's divider.
use fscc_linux.Prelude.{
  ℕ, Bool, ◌^◌, ◌-◌, ◌%◌, ◌/◌, ltb, if◌then◌else◌, ◌≤◌, ◌<◌, ◌≡◌, arith, inl, inr, false,
  Bool-cases, none, some, first_from-some, first_from-none,
}
use fscc_linux.ClockBits.Double.{less, scale, to_int}
use fscc_linux.ClockBits.Best.{lowest_divider}
use fscc_linux.ClockBits.Search.{
  Solution, allowable_error, freq_err, breaks_rule1, v_divstart, is_bad_filter, solution, try_icp,
  try_rs, try_v, clamp,
}

-- What a round over `v` finds.
pub record IsFoundAt (ppm desired r od v : ℕ) (s : Solution) : Type 0 where
  pub i : ℕ
  pub j : ℕ
  pub i_low : i < 4
  pub j_low : j < 20
  pub rule1 : breaks_rule1 r od v ≡ false
  pub accurate : less (allowable_error ppm desired) (freq_err desired r od v) ≡ false
  pub filter : is_bad_filter (solution desired r od v i j).the_other ≡ false
  pub stored : s ≡ solution desired r od v i j

try_icp-some :
    (desired r od v i j : ℕ) (s : Solution)
    → try_icp desired r od v i j ≡ some s
    → (is_bad_filter (solution desired r od v i j).the_other ≡ false)
      × (s ≡ solution desired r od v i j)
unfolding try_icp
try_icp-some desired r od v i j s e = ground arith

pub try_v-some :
    (ppm desired r od v : ℕ) (s : Solution)
    → try_v ppm desired r od v ≡ some s
    → IsFoundAt ppm desired r od v s
unfolding try_v try_rs
try_v-some ppm desired r od v s e = elim (Bool-cases (breaks_rule1 r od v)) [
  | inl bad ↦ absurd (ground arith)
  | inr good ↦ elim (Bool-cases (less (allowable_error ppm desired) (freq_err desired r od v))) [
    | inl far ↦ absurd (ground arith)
    | inr near ↦
        let by_rs = first_from-some (try_rs desired r od v) 0 4 s (rw (good, near) at e) in
        let by_icp = first_from-some (try_icp desired r od v by_rs.at) 0 20 s by_rs.answers in
        let (fine, same) = try_icp-some desired r od v by_rs.at by_icp.at s by_icp.answers in
        record {
          i = by_rs.at;
          j = by_icp.at;
          i_low = omega (arith, by_rs.below);
          j_low = omega (arith, by_icp.below);
          rule1 = good;
          accurate = near;
          filter = fine;
          stored = same;
        }
  ]
]

pub try_v-none :
    (ppm desired r od v : ℕ)
    → try_v ppm desired r od v ≡ none
    → (s : Solution) → ¬ IsFoundAt ppm desired r od v s
unfolding try_v try_rs try_icp
try_v-none ppm desired r od v e s found =
    let none_for_rs : try_rs desired r od v found.i ≡ none =
      first_from-none (try_rs desired r od v) 0 4 (rw (found.rule1, found.accurate) at e) found.i
        (omega arith) (omega (arith, found.i_low)) in
    let none_for_icp : try_icp desired r od v found.i found.j ≡ none =
      first_from-none (try_icp desired r od v found.i) 0 20 none_for_rs found.j (omega arith)
        (omega (arith, found.j_low)) in
    cc (rw found.filter at none_for_icp)

pub v_divstart-le : (ppm desired r od : ℕ) → v_divstart ppm desired r od ≤ 2055
unfolding v_divstart clamp
v_divstart-le ppm desired r od = ground arith

pub v_divstart-ge : (ppm desired r od : ℕ) → 12 ≤ v_divstart ppm desired r od
unfolding v_divstart clamp
v_divstart-ge ppm desired r od = ground arith

clamp_start :
    (negative : Bool) (n v : ℕ)
    → negative ≡ false
    → n ≤ v
    → 12 ≤ v
    → v ≤ 2055
    → clamp (if ltb n (2 ^ 31) then (if negative then (2 ^ 32 - n) % 2 ^ 32 else n) else 2 ^ 31) ≤ v
unfolding clamp
clamp_start negative n v plus reached low high = ground arith

-- The search starts at no divider behind the whole part of the lowest one.
pub v_divstart-reached :
    (ppm desired r od v : ℕ)
    → (lowest_divider desired ppm r od).negative ≡ false
    → (lowest_divider desired ppm r od).units / scale ≤ v
    → 12 ≤ v
    → v ≤ 2055
    → v_divstart ppm desired r od ≤ v
unfolding v_divstart to_int
v_divstart-reached ppm desired r od v plus reached low high =
    clamp_start (lowest_divider desired ppm r od).negative
      ((lowest_divider desired ppm r od).units / scale) v plus reached low high
