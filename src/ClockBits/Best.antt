-- ===== src/ClockBits/Best.antt =====
-- lib/raw/calculate-clock-bits.c: what the search of GetICS30703Data comes to.
pub mod Dividers
pub mod Found
pub mod Order
use fscc_linux.Prelude.{ℕ, ◌/◌, ◌+◌, ◌≤◌, ◌<◌, ◌≡◌, ◌≢◌, false, none, some, Option, get_or}
use fscc_linux.ClockBits.Double.{Double, scale, of_nat, ◌×d◌, ◌÷d◌, ◌-d◌, less}
use fscc_linux.ClockBits.Search.{
  Solution, rs_values, icpnum_values, allowable_error, freq_err, breaks_rule1, breaks_rule2,
  inputfreq, is_bad_filter, loop_filter, solution,
}
use fscc_linux.ClockBits.Settings.{IsVisited}

-- The dividers, and the positions of the loop filter's values.
pub record Choice : Type 0 where
  pub r : ℕ
  pub od : ℕ
  pub v : ℕ
  pub i : ℕ
  pub j : ℕ

-- A choice that keeps the rules of the clock generator and is as accurate as `ppm` asks, in the
-- arithmetic of the source.
pub record IsChoice (desired ppm : ℕ) (c : Choice) : Type 0 where
  pub r_low : 1 ≤ c.r
  pub r_high : c.r ≤ 1200
  pub rule2 : breaks_rule2 c.r ≡ false
  pub visited : IsVisited c.od
  pub v_low : 12 ≤ c.v
  pub v_high : c.v ≤ 2055
  pub rule1 : breaks_rule1 c.r c.od c.v ≡ false
  pub accurate : less (allowable_error ppm desired) (freq_err desired c.r c.od c.v) ≡ false
  pub i_low : c.i < 4
  pub j_low : c.j < 20
  pub filter : is_bad_filter (solution desired c.r c.od c.v c.i c.j).the_other ≡ false

-- The oscillator's divider, not yet a whole number, at which the frequency is the lowest that is
-- allowed: the one that is asked for, less the allowable error.
abbrev pub lowest_divider : ℕ → ℕ → ℕ → ℕ → Double
lowest_divider desired ppm r od =
    (of_nat desired -d allowable_error ppm desired) ×d of_nat r ×d of_nat od ÷d inputfreq

-- A choice that does not lie below the lowest frequency allowed, by the whole part of its divider.
pub record IsCandidate (desired ppm : ℕ) (c : Choice) : Type 0 where
  pub choice : IsChoice desired ppm c
  pub positive : (lowest_divider desired ppm c.r c.od).negative ≡ false
  pub reached : (lowest_divider desired ppm c.r c.od).units / scale ≤ c.v

-- No accuracy up to the requested one has a candidate.
abbrev pub HasNone : ℕ → ℕ → Type 0
HasNone desired requestedppm =
    (ppm : ℕ) → ppm ≤ requestedppm → (c : Choice) → ¬ IsCandidate desired ppm c

-- What is found at an accuracy: a choice that has no greater input divider than any candidate, and
-- no smaller output divider than any candidate with the same input divider.
pub record IsBestAt (desired ppm : ℕ) (s : Solution) : Type 0 where
  pub choice : Choice
  pub is_choice : IsChoice desired ppm choice
  pub stored : s ≡ solution desired choice.r choice.od choice.v choice.i choice.j
  pub least_r : (c : Choice) → IsCandidate desired ppm c → choice.r ≤ c.r
  pub greatest_od : (c : Choice) → IsCandidate desired ppm c → c.r ≡ choice.r → c.od ≤ choice.od

-- The order of the comment in the source: the best accuracy, then the least input divider, then the
-- greatest output divider.
pub record IsBest (desired requestedppm : ℕ) (s : Solution) : Type 0 where
  pub ppm : ℕ
  pub ppm_high : ppm ≤ requestedppm
  pub best : IsBestAt desired ppm s
  pub least_ppm : (other : ℕ) → other < ppm → (c : Choice) → ¬ IsCandidate desired other c

abbrev pub IsOutcome : ℕ → ℕ → Option Solution → Type 0
IsOutcome desired requestedppm (some s) = IsBest desired requestedppm s
IsOutcome desired requestedppm none = HasNone desired requestedppm
