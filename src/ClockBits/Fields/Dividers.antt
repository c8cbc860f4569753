-- ===== src/ClockBits/Fields/Dividers.antt =====
-- lib/raw/calculate-clock-bits.c: tables 1 and 2, on bytes 0 to 2.
use fscc_linux.Prelude.{
  ℕ, zero, suc, ◌+◌, ◌-◌, ◌*◌, ◌/◌, ◌%◌, ◌^◌, ◌≤◌, ◌<◌, ◌≡◌, refl, arith, Bool, true, ◌&&◌, ltb,
  ◌==◌, leb, ◌∙◌, zero-bit_or, [], ◌∷◌, get_or, bit_or,
}
use fscc_linux.ClockBits.Tables.{input_divider, vco_divider}
use fscc_linux.ClockBits.Decode.{decode_input, decode_vco}
use fscc_linux.ClockBits.Fields.{word, all_below, all_below_lem}

-- Bytes 0 and 1 after table 1
unfoldable pub low_byte : ℕ → ℕ
low_byte d = get_or (input_divider d (0 ∷ 0 ∷ [])).1 0 0

unfoldable pub high_byte : ℕ → ℕ
high_byte d = get_or (input_divider d (0 ∷ 0 ∷ [])).1 1 0

pub input_divider-word :
    (d c f y z g h : ℕ)
    → 1 ≤ d
    → d ≤ 2055
    → input_divider d (word 0 0 c f y z g h) ≡ (0, word (low_byte d) (high_byte d) c f y z g h)
unfolding input_divider low_byte high_byte
input_divider-word d c f y z g h low high = ground arith

-- What the bytes of table 1 have to show, for `d + 1`.
abbrev input_test : ℕ → Bool
input_test d =
    ltb (low_byte (suc d)) 256
    && ltb (high_byte (suc d)) 32
    && decode_input (low_byte (suc d)) (high_byte (suc d)) == suc d

input_table : all_below 2055 input_test ≡ true
unfolding all_below input_divider low_byte high_byte decode_input
input_table = refl

-- Byte 1 after table 2, which adds its three bits above the five of table 1.
or_table : all_below 32 (λ b. all_below 8 (λ k. bit_or b (k * 32) == b + k * 32)) ≡ true
unfolding all_below
or_table = refl

pub high_byte-lt : (d : ℕ) → 1 ≤ d → d ≤ 2055 → high_byte d < 32
high_byte-lt zero low high = absurd (omega arith)
high_byte-lt (suc d) low high = ground (arith, all_below_lem 2055 input_test d input_table)

decode_input_high : (x y k : ℕ) → y < 32 → decode_input x (y + k * 32) ≡ decode_input x y
unfolding decode_input
decode_input_high x y k small = let e : (y + k * 32) % 32 ≡ y % 32 = omega arith in rw e refl

pub low_byte-lt : (d : ℕ) → 1 ≤ d → d ≤ 2055 → low_byte d < 256
low_byte-lt zero low high = absurd (omega arith)
low_byte-lt (suc d) low high = ground (arith, all_below_lem 2055 input_test d input_table)

-- The input divider is read back, whatever table 2 puts above its bits.
pub decode_input-low_byte :
    (d k : ℕ) → 1 ≤ d → d ≤ 2055 → decode_input (low_byte d) (high_byte d + k * 32) ≡ d
decode_input-low_byte zero k low high = absurd (omega arith)
decode_input-low_byte (suc d) k low high =
    decode_input_high (low_byte (suc d)) (high_byte (suc d)) k (high_byte-lt (suc d) low high)
    ∙ (ground (arith, all_below_lem 2055 input_test d input_table))

bit_or_bits : (b k : ℕ) → b < 32 → k < 8 → bit_or b (k * 32) ≡ b + k * 32
bit_or_bits b k hb hk = ground (
  arith,
  all_below_lem 32 (λ b. all_below 8 (λ k. bit_or b (k * 32) == b + k * 32)) b or_table,
  all_below_lem 8 (λ k. bit_or b (k * 32) == b + k * 32) k,
)

pub vco_divider-word :
    (v a b f y z g h : ℕ)
    → 12 ≤ v
    → v ≤ 2055
    → b < 32
    → vco_divider v (word a b 0 f y z g h)
      ≡ (0, word a (b + (v - 8) % 8 * 32) ((v - 8) / 8) f y z g h)
unfolding vco_divider
vco_divider-word v a b f y z g h low high small =
    let below : (v - 8) * 2 ^ 5 % 2 ^ 8 ≡ (v - 8) % 8 * 32 = omega arith in
    let above : (v - 8) * 2 ^ 5 / 2 ^ 8 % 2 ^ 8 ≡ (v - 8) / 8 = omega arith in
    let first : leb 12 v ≡ true = ground arith in
    let last : leb v 2055 ≡ true = ground arith in
    rw
      (
        first,
        last,
        below,
        above,
        bit_or_bits b ((v - 8) % 8) small (omega arith),
        zero-bit_or ((v - 8) / 8),
      )
      refl

pub decode_vco-high :
    (v b : ℕ) → 12 ≤ v → b < 32 → decode_vco (b + (v - 8) % 8 * 32) ((v - 8) / 8) ≡ v
unfolding decode_vco
decode_vco-high v b low small = omega arith
