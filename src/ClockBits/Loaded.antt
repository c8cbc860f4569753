-- ===== src/ClockBits/Loaded.antt =====
-- calculate-clock-bits.c and port.c together: the setting that the clock generator loads when the
-- driver is given the bytes that the library calculated.
use fscc_linux.Prelude.{
  ℕ, ◌-◌, ◌/◌, ◌^◌, ◌<◌, ◌≡◌, refl, ap, ◌∙◌, arith, Bool, true, ◌&&◌, ◌==◌, some, List, [], ◌∷◌,
  ◌++◌, get_or, set, drop, length, All, All-set, All-get_or, ltb, inl, inr, ◌⊎◌, bit_and, bit_or,
  length-set, length-drop, get_or-set_ne, get_or-set_self, ◌≢◌, append-nil,
}
use fscc_linux.Port.Clock.{xtal, fcr_words}
use fscc_linux.Port.Clock.Generator.{generator_loads, setting_bits}
use fscc_linux.Port.Clock.Shift.{generator_loads-fcr_words}
use fscc_linux.Port.Clock.Bytes.{register_bytes, register_bytes-setting_bits}
use fscc_linux.ClockBits.Search.{Solution}
use fscc_linux.ClockBits.Decode.{decode, decode_current}
use fscc_linux.ClockBits.Settings.{setting}
use fscc_linux.ClockBits.Fields.{all_below, all_below_lem}
use fscc_linux.ClockBits.Best.{HasNone, IsBest}
use fscc_linux.ClockBits.Calculate.{calculate_clock_bits}
use fscc_linux.ClockBits.Calculate.Outcome.{InRange, calculate_clock_bits_lem}

-- The crystal's bit of byte 15 is no part of a setting.
abbrev xtal_test : ℕ → Bool
xtal_test b =
    ltb (bit_and b 0xfb) 256
    && ltb (bit_or b 0x04) 256
    && bit_and b 0xfb / 128 == b / 128
    && bit_or b 0x04 / 128 == b / 128

xtal_table : all_below 256 xtal_test ≡ true
unfolding all_below
xtal_table = refl

xtal_lem :
    (pdev prev b : ℕ) → b < 256 → (xtal pdev prev b < 256) × (xtal pdev prev b / 128 ≡ b / 128)
unfolding xtal
xtal_lem pdev prev b small = ground (arith, all_below_lem 256 xtal_test b xtal_table)

-- The bytes that the driver sends: byte 15 says whether there is a crystal.
abbrev pub sent : ℕ → ℕ → List ℕ → List ℕ
sent pdev prev p = set p 15 (xtal pdev prev (get_or p 15 0))

decode-set :
    (p : List ℕ) (b : ℕ)
    → 15 < length p
    → b / 128 ≡ get_or p 15 0 / 128
    → decode (set p 15 b) ≡ decode p
unfolding decode decode_current
decode-set p b long e =
    rw
      (
        other 0 (omega arith),
        other 1 (omega arith),
        other 2 (omega arith),
        other 11 (omega arith),
        other 12 (omega arith),
        other 13 (omega arith),
        other 16 (omega arith),
        get_or-set_self p 15 b 0 long,
        e,
      )
      refl
  where
    other : (k : ℕ) → 15 ≢ k → get_or (set p 15 b) k 0 ≡ get_or p k 0
    other k ne = get_or-set_ne p 15 k b 0 ne

empty : (xs : List ℕ) → length xs ≡ 0 → xs ≡ []
empty [] e = refl
empty (x ∷ xs) e = absurd (omega arith)

sent-loaded :
    (channel orig pdev prev : ℕ) (p : List ℕ)
    → length p ≡ 20
    → All (λ b. b < 256) p
    → (bits : List ℕ) × (generator_loads channel (fcr_words channel orig (sent pdev prev p))
        ≡ some bits)
      × (decode (register_bytes 20 bits) ≡ decode p)
sent-loaded channel orig pdev prev p n small =
    let byte = get_or p 15 0 in
    let (below, same) =
      xtal_lem pdev prev byte (All-get_or (λ b. b < 256) p 15 0 (omega arith) small) in
    let clock = sent pdev prev p in
    (
      setting_bits clock 20,
      generator_loads-fcr_words channel orig clock,
      ap decode (
            register_bytes-setting_bits clock
              (All-set (λ b. b < 256) p 15 (xtal pdev prev byte) below small)
              (length-set p 15 (xtal pdev prev byte) ∙ n))
          ∙ decode-set p (xtal pdev prev byte) (omega (arith, n)) same,
    )

-- Of a calculation for an array of 20 bytes on any channel: it fails, and then the frequency is out
-- of range or no accuracy up to the requested one has a candidate; or the clock generator loads,
-- from the words that the driver makes of the bytes, a setting that keeps the generator's rules, is
-- as accurate as asked, and that no candidate is better than. A candidate is a setting that keeps the
-- rules, is as accurate as asked and does not lie below the lowest frequency allowed.
pub calculated-loaded :
    (freq ppm channel orig pdev prev : ℕ) (progwords progbytes : List ℕ)
    → ppm < 2 ^ 64 - 1
    → length progbytes ≡ 20
    → (let (code, p) = calculate_clock_bits freq ppm progwords progbytes in
        ((code ≡ 1) × ((¬ InRange freq) ⊎ HasNone freq ppm))
        ⊎ ((s : Solution) × (bits : List ℕ) × (code ≡ 0)
            × IsBest freq ppm s
            × (generator_loads channel (fcr_words channel orig (sent pdev prev p)) ≡ some bits)
            × (decode (register_bytes 20 bits) ≡ setting s)))
calculated-loaded freq ppm channel orig pdev prev progwords progbytes ends n =
    elim (calculate_clock_bits_lem freq ppm progwords progbytes ends) [
      | inl (e, why) ↦ inl (ap (λ r. r.0) e, why)
      | inr (p, range, k, e) ↦ inr (
          let whole : p ++ drop 20 progbytes ≡ p =
            ap (λ t. p ++ t)
              (empty (drop 20 progbytes) (omega (arith, length-drop 20 progbytes, n)))
            ∙ append-nil p in
          let (bits, loads, same) = sent-loaded channel orig pdev prev p k.bytes k.small in
          (k.best, bits, ap (λ r. r.0) e, k.is_best, rw (e, whole) loads, same ∙ k.decoded))
    ]
