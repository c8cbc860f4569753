-- ===== src/ClockBits/Settings.antt =====
-- The settings of the clock generator that the search of GetICS30703Data tries.
use fscc_linux.Prelude.{ℕ, ◌%◌, ◌≤◌, ◌<◌, ◌≡◌, get_or}
use fscc_linux.ClockBits.Search.{Solution, rs_values, icpnum_values}
use fscc_linux.ClockBits.Decode.{Setting}

-- The dividers that the search visits.
pub record IsOnGrid (od : ℕ) : Type 0 where
  pub high : od ≤ 8232
  pub even : 1029 < od → od % 2 ≡ 0
  pub quads : 2058 < od → od % 4 ≡ 0
  pub octets : 4116 < od → od % 8 ≡ 0

pub record IsVisited (od : ℕ) : Type 0 where
  pub low : 2 ≤ od
  pub grid : IsOnGrid od

pub record IsSetting (s : Setting) : Type 0 where
  pub ref_low : 1 ≤ s.ref_div
  pub ref_high : s.ref_div ≤ 1200
  pub vco_low : 12 ≤ s.vco_div
  pub vco_high : s.vco_div ≤ 2055
  pub i : ℕ
  pub i_low : i < 4
  pub resistor : s.rs ≡ get_or rs_values i 0
  pub j : ℕ
  pub j_low : j < 20
  pub current : s.icpnum ≡ get_or icpnum_values j 0
  pub visited : IsVisited s.out_div

-- The fields of a solution that the tables encode.
abbrev pub setting : Solution → Setting
setting s = record {
  ref_div = s.the_one.ref_div;
  vco_div = s.the_one.vco_div;
  rs = s.the_other.rs;
  icpnum = s.the_other.icpnum;
  out_div = s.the_one.out_div;
}
