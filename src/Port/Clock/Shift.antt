-- ===== src/Port/Clock/Shift.antt =====
-- port.c: what the clock generator loads from the words that fscc_port_set_clock_bits sends.
use fscc_linux.Prelude.{
  ℕ, zero, suc, ◌-◌, ◌/◌, ◌%◌, ◌^◌, ◌<◌, ◌≡◌, refl, ap, ◌∙◌, arith, inl, inr, true, false,
  if◌then◌else◌, some, List, [], ◌∷◌, ◌++◌, append-nil, append_assoc, Bool-cases, get_or, bit_and,
  bit_or, bit_and-bit_or, bit_and_assoc, bit_and-zero, bit_or-zero, zero-bit_or, ◌==◌,
}
use fscc_linux.Kernel.{truthy}
use fscc_linux.Port.Clock.{clear, bit_words, byte_words, clock_words, fcr_words}
use fscc_linux.Port.Clock.Generator.{level, loaded, byte_bits, setting_bits, generator_loads}

-- Three lines that do not overlap, on a base with all of them low.
record IsLines (d c s base : ℕ) : Type 0 where
  d_c : bit_and d c ≡ 0
  d_s : bit_and d s ≡ 0
  c_d : bit_and c d ≡ 0
  c_s : bit_and c s ≡ 0
  s_c : bit_and s c ≡ 0
  d_d : bit_and d d ≡ d
  c_c : bit_and c c ≡ c
  s_s : bit_and s s ≡ s
  d_high : truthy d ≡ true
  c_high : truthy c ≡ true
  s_high : truthy s ≡ true
  clear_d : bit_and (2 ^ 32 - 1 - d) d ≡ 0
  clear_d_c : bit_and (2 ^ 32 - 1 - d) c ≡ c
  clear_d_s : bit_and (2 ^ 32 - 1 - d) s ≡ s
  clear_c : bit_and (2 ^ 32 - 1 - c) c ≡ 0
  clear_c_s : bit_and (2 ^ 32 - 1 - c) s ≡ s
  base_d : bit_and base d ≡ 0
  base_c : bit_and base c ≡ 0
  base_s : bit_and base s ≡ 0

as_bit : (bit : ℕ) → bit < 2 → (if truthy bit then 1 else 0) ≡ bit
as_bit bit low = ground arith

module _ (d c s base : ℕ) (k : IsLines d c s base) where
  high_s : (n : ℕ) → bit_and n s ≡ 0 → level (bit_or n c) s ≡ false
  high_s n n_s = rw (bit_and-bit_or n c s, n_s, k.c_s) refl

  high_c : (n : ℕ) → bit_and n c ≡ 0 → level (bit_or n c) c ≡ true
  high_c n n_c = rw (bit_and-bit_or n c c, n_c, k.c_c, zero-bit_or c) k.c_high

  high_d :
      (n bit : ℕ) → bit_and n d ≡ (if truthy bit then d else 0) → level (bit_or n c) d ≡ truthy bit
  high_d n bit n_d = elim (Bool-cases (truthy bit)) [
    | inl on ↦ rw (bit_and-bit_or n c d, n_d, on, k.c_d, bit_or-zero d) k.d_high
    | inr off ↦ rw (bit_and-bit_or n c d, n_d, off, k.c_d) refl
  ]

  low_c : (n : ℕ) → level (clear n c) c ≡ false
  low_c n = rw (bit_and_assoc n (2 ^ 32 - 1 - c) c, k.clear_c, bit_and-zero n) refl

  low_s : (n : ℕ) → level (clear n c) s ≡ level n s
  low_s n = rw (bit_and_assoc n (2 ^ 32 - 1 - c) s, k.clear_c_s) refl

  -- One bit goes in on the rising edge, and the clock is low again.
  raised :
      (n bit : ℕ) (bits rest : List ℕ)
      → bit_and n d ≡ (if truthy bit then d else 0)
      → bit_and n c ≡ 0
      → bit_and n s ≡ 0
      → loaded d c s false bits (bit_or n c ∷ clear (bit_or n c) c ∷ rest)
        ≡ loaded d c s false (bits ++ ((if truthy bit then 1 else 0) ∷ [])) rest
  unfolding loaded
  raised n bit bits rest n_d n_c n_s =
      rw
        (
          high_s n n_s,
          low_s (bit_or n c),
          high_s n n_s,
          high_c n n_c,
          high_d n bit n_d,
          low_c (bit_or n c),
        )
        refl

  bit_words-loaded :
      (bit : ℕ) (bits rest : List ℕ)
      → loaded d c s false bits (bit_words d c base bit ++ rest)
        ≡ loaded d c s false (bits ++ ((if truthy bit then 1 else 0) ∷ [])) rest
  unfolding bit_words
  bit_words-loaded bit bits rest = elim (Bool-cases (truthy bit)) [
    | inl on ↦ rw on (
        raised (bit_or base d) bit bits rest
          (rw (bit_and-bit_or base d d, k.base_d, k.d_d, zero-bit_or d, on) refl)
          (rw (bit_and-bit_or base d c, k.base_c, k.d_c) refl)
          (rw (bit_and-bit_or base d s, k.base_s, k.d_s) refl)
        ∙ rw on refl)
    | inr off ↦ rw off (
        raised (clear base d) bit bits rest
          (rw (bit_and_assoc base (2 ^ 32 - 1 - d) d, k.clear_d, bit_and-zero base, off) refl)
          (rw (bit_and_assoc base (2 ^ 32 - 1 - d) c, k.clear_d_c) k.base_c)
          (rw (bit_and_assoc base (2 ^ 32 - 1 - d) s, k.clear_d_s) k.base_s)
        ∙ rw off refl)
  ]

  byte_words-loaded :
      (byte n : ℕ) (bits rest : List ℕ)
      → loaded d c s false bits (byte_words d c base byte n ++ rest)
        ≡ loaded d c s false (bits ++ byte_bits byte n) rest
  unfolding byte_words byte_bits
  byte_words-loaded byte zero bits rest = rw append-nil refl
  byte_words-loaded byte (suc j) bits rest =
      let bit = byte / 2 ^ j % 2 in
      rw append_assoc (
        bit_words-loaded bit bits (byte_words d c base byte j ++ rest)
        ∙ rw (as_bit bit (omega arith)) (
            byte_words-loaded byte j (bits ++ (bit ∷ [])) rest
            ∙ ap (λ b. loaded d c s false b rest)
                (append_assoc bits (bit ∷ []) (byte_bits byte j))))

  clock_words-loaded :
      (clock : List ℕ) (n : ℕ) (bits rest : List ℕ)
      → loaded d c s false bits (clock_words d c base clock n ++ rest)
        ≡ loaded d c s false (bits ++ setting_bits clock n) rest
  unfolding clock_words setting_bits
  clock_words-loaded clock zero bits rest = rw append-nil refl
  clock_words-loaded clock (suc i) bits rest =
      let byte = get_or clock i 0 in
      rw append_assoc (
        byte_words-loaded byte 8 bits (clock_words d c base clock i ++ rest)
        ∙ clock_words-loaded clock i (bits ++ byte_bits byte 8) rest
        ∙ ap (λ b. loaded d c s false b rest)
            (append_assoc bits (byte_bits byte 8) (setting_bits clock i)))

  -- The first word has all lines low, and the strobe goes high after the last bit.
  idle : (ws : List ℕ) → loaded d c s false [] (base ∷ ws) ≡ loaded d c s false [] ws
  unfolding loaded
  idle ws = rw (k.base_s, k.base_c) refl

  strobe : (bits ws : List ℕ) → loaded d c s false bits (clear (bit_or base s) c ∷ ws) ≡ some bits
  unfolding loaded
  strobe bits ws =
      rw (low_s (bit_or base s), bit_and-bit_or base s s, k.base_s, k.s_s, zero-bit_or s, k.s_high)
        refl

  whole-loaded :
      (clock : List ℕ) (orig : ℕ)
      → loaded d c s false []
          (base ∷ clock_words d c base clock 20 ++ clear (bit_or base s) c ∷ orig ∷ [])
        ≡ some (setting_bits clock 20)
  whole-loaded clock orig =
      idle (clock_words d c base clock 20 ++ clear (bit_or base s) c ∷ orig ∷ [])
      ∙ clock_words-loaded clock 20 [] (clear (bit_or base s) c ∷ orig ∷ [])
      ∙ strobe (setting_bits clock 20) (orig ∷ [])

low_line : (orig m : ℕ) → bit_and 0xfffff0f0 m ≡ 0 → bit_and (bit_and orig 0xfffff0f0) m ≡ 0
low_line orig m e = bit_and_assoc orig 0xfffff0f0 m ∙ rw e (bit_and-zero orig)

first-IsLines : (orig : ℕ) → IsLines 1 2 8 (bit_and orig 0xfffff0f0)
first-IsLines orig = record {
  d_c = refl;
  d_s = refl;
  c_d = refl;
  c_s = refl;
  s_c = refl;
  d_d = refl;
  c_c = refl;
  s_s = refl;
  d_high = refl;
  c_high = refl;
  s_high = refl;
  clear_d = refl;
  clear_d_c = refl;
  clear_d_s = refl;
  clear_c = refl;
  clear_c_s = refl;
  base_d = low_line orig 1 refl;
  base_c = low_line orig 2 refl;
  base_s = low_line orig 8 refl;
}

second-IsLines : (orig : ℕ) → IsLines 256 512 2048 (bit_and orig 0xfffff0f0)
second-IsLines orig = record {
  d_c = refl;
  d_s = refl;
  c_d = refl;
  c_s = refl;
  s_c = refl;
  d_d = refl;
  c_c = refl;
  s_s = refl;
  d_high = refl;
  c_high = refl;
  s_high = refl;
  clear_d = refl;
  clear_d_c = refl;
  clear_d_s = refl;
  clear_c = refl;
  clear_c_s = refl;
  base_d = low_line orig 256 refl;
  base_c = low_line orig 512 refl;
  base_s = low_line orig 2048 refl;
}

-- On either channel, and whatever FCR was, the clock generator loads the 160 bits of the setting,
-- those of byte 19 first and the highest bit of each byte first.
pub generator_loads-fcr_words :
    (channel orig : ℕ) (clock : List ℕ)
    → generator_loads channel (fcr_words channel orig clock) ≡ some (setting_bits clock 20)
unfolding fcr_words
generator_loads-fcr_words channel orig clock = elim (Bool-cases (channel == 1)) [
  | inl second ↦
      rw second
        (whole-loaded 256 512 2048 (bit_and orig 0xfffff0f0) (second-IsLines orig) clock orig)
  | inr first ↦
      rw first (whole-loaded 1 2 8 (bit_and orig 0xfffff0f0) (first-IsLines orig) clock orig)
]
