-- ===== src/ClockBits.antt =====
-- lib/raw/calculate-clock-bits.c: the settings of the clock generator for a frequency.
pub mod Double
pub mod Search
pub mod Tables
pub mod Decode
pub mod Settings
pub mod Best
pub mod Fields
pub mod RoundTrip
pub mod Calculate
pub mod Loaded
use fscc_linux.Prelude.{ℕ}
