-- ===== src/ClockBits/Fields/Output.antt =====
-- lib/raw/calculate-clock-bits.c: table 5, on bytes 11 to 13.
use fscc_linux.Prelude.{
  ℕ, ◌+◌, ◌-◌, ◌*◌, ◌/◌, ◌≤◌, ◌<◌, ◌≡◌, refl, arith, Bool, true, ◌&&◌, ltb, ◌==◌, get_or, leb, inl,
  inr, Bool-cases,
}
use fscc_linux.ClockBits.Tables.{is_short, short_divider, divider_bits, output_divider}
use fscc_linux.ClockBits.Decode.{decode_listed, decode_output}
use fscc_linux.ClockBits.Settings.{IsVisited}
use fscc_linux.ClockBits.Fields.{word, all_below, all_below_lem}
use fscc_linux.ClockBits.Fields.Products.{x_byte, scaled_low, Decoded, top_bit, long_word}

-- Bytes 12 and 13, which table 5 finds at 0 and 0x40.
unfoldable pub low_od : ℕ → ℕ
low_od od = get_or (divider_bits od (word 0 0 0 0 0 0x40 0 0)) 12 0

unfoldable pub high_od : ℕ → ℕ
high_od od = get_or (divider_bits od (word 0 0 0 0 0 0x40 0 0)) 13 0

-- Bit 7 of byte 11
unfoldable pub top_od : ℕ → ℕ
top_od od = get_or (divider_bits od (word 0 0 0 0 0 0x40 0 0)) 11 0 / 128

small_word :
    (od a b c f g h : ℕ)
    → f < 128
    → od < 38
    → 2 ≤ od
    → divider_bits od (word a b c f 0 0x40 g h)
      ≡ word a b c (f + top_od od * 128) (low_od od) (high_od od) g h
unfolding divider_bits short_divider low_od high_od top_od is_short
small_word od a b c f g h small low ge = ground (arith, top_bit f)

abbrev small_test : ℕ → Bool
small_test k =
    decode_output (top_od (k + 2) * 128) (low_od (k + 2)) (high_od (k + 2)) == k + 2
    && ltb (top_od (k + 2)) 2
    && ltb (low_od (k + 2)) 256
    && ltb (high_od (k + 2)) 256

small_table : all_below 36 small_test ≡ true
unfolding all_below divider_bits short_divider low_od high_od top_od is_short decode_output
    decode_listed
small_table = refl

pub decode_output_top :
    (f top y z : ℕ) → f < 128 → decode_output (f + top * 128) y z ≡ decode_output (top * 128) y z
unfolding decode_output
decode_output_top f top y z small =
    let e : (f + top * 128) / 128 ≡ top * 128 / 128 = omega arith in rw e refl

-- The bytes stand for the divider, whatever the low bits of byte 11.
abbrev pub IsRead : ℕ → ℕ → ℕ → ℕ → Type 0
IsRead od top y z = (decode_output (top * 128) y z ≡ od) × (top < 2) × (y < 256) × (z < 256)

small-IsRead : (k : ℕ) → k < 36 → IsRead (k + 2) (top_od (k + 2)) (low_od (k + 2)) (high_od (k + 2))
small-IsRead k low = ground (arith, all_below_lem 36 small_test k small_table)

long-IsRead : (od x : ℕ) → Decoded od x → IsRead od 1 (scaled_low od x) (x_byte 13 od x)
unfolding decode_output
long-IsRead od x (d, two, y_low, z_low) = (rw (two, d) refl, omega arith, y_low, z_low)

-- Table 5 takes every divider of the search, and it is read back; the low bits of byte 11 stay.
pub output_divider-word :
    (od a b c f g h : ℕ)
    → f < 128
    → IsVisited od
    → (top : ℕ) × (y : ℕ) × (z : ℕ) × (output_divider od (word a b c f 0 0x40 g h)
        ≡ (0, word a b c (f + top * 128) y z g h))
      × IsRead od top y z
unfolding output_divider
output_divider-word od a b c f g h small v =
    let first : leb 2 od ≡ true = ground (arith, v.low) in
    let last : leb od 8232 ≡ true = ground (arith, v.grid.high) in
    elim (Bool-cases (ltb od 38)) [
      | inl e ↦ (
        top_od od,
        low_od od,
        high_od od,
        rw (first, last, small_word od a b c f g h small (ground arith) v.low) refl,
        (let k : od - 2 + 2 ≡ od = ground (arith, v.low) in
            rw k at (small-IsRead (od - 2) (ground (arith, v.low)))),
      )
      | inr e ↦
          let (x, d, word_e) = long_word od a b c f g h small (ground arith) v in
          (1, scaled_low od x, x_byte 13 od x, rw (first, last, word_e) refl, long-IsRead od x d)
    ]
