-- ===== src/ClockBits/Fields.antt =====
-- lib/raw/calculate-clock-bits.c: the bytes that each table writes, and the fields read from them.
pub mod Dividers
pub mod Filter
pub mod Products
pub mod Output
use fscc_linux.Prelude.{ℕ, zero, suc, ◌<◌, ◌≡◌, refl, arith, Bool, true, ◌&&◌, List, [], ◌∷◌, All}
use fscc_linux.ClockBits.Decode.{
  Setting, decode_input, decode_vco, decode_resistor, decode_current, decode_output, decode,
}

-- `progdata`, by the bytes that the tables change.
abbrev pub word : ℕ → ℕ → ℕ → ℕ → ℕ → ℕ → ℕ → ℕ → List ℕ
word a b c f y z g h =
    a ∷ b ∷ c ∷ 0 ∷ 0 ∷ 0 ∷ 0 ∷ 0 ∷ 0 ∷ 0 ∷ 0 ∷ f ∷ y ∷ z ∷ 1 ∷ g ∷ h ∷ 0xff ∷ 0xff ∷ 0xff ∷ []

pub decode-word :
    (a b c f y z g h : ℕ)
    → decode (word a b c f y z g h) ≡ record {
      ref_div = decode_input a b;
      vco_div = decode_vco b c;
      rs = decode_resistor f;
      icpnum = decode_current f g h;
      out_div = decode_output f y z;
    }
unfolding decode
decode-word a b c f y z g h = refl

pub word-IsByte :
    (a b c f y z g h : ℕ)
    → a < 256
    → b < 256
    → c < 256
    → f < 256
    → y < 256
    → z < 256
    → g < 256
    → h < 256
    → All (λ b. b < 256) (word a b c f y z g h)
word-IsByte a b c f y z g h ha hb hc hf hy hz hg hh = (
  ha,
  (
    hb,
    (
      hc,
      (
        omega arith,
        (
          omega arith,
          (
            omega arith,
            (
              omega arith,
              (
                omega arith,
                (
                  omega arith,
                  (
                    omega arith,
                    (
                      omega arith,
                      (
                        hf,
                        (
                          hy,
                          (
                            hz,
                            (
                              omega arith,
                              (hg, (hh, (omega arith, (omega arith, (omega arith, tt))))),
                            ),
                          ),
                        ),
                      ),
                    ),
                  ),
                ),
              ),
            ),
          ),
        ),
      ),
    ),
  ),
)

-- A test of all numbers below a bound, which the checker evaluates.
unfoldable pub all_below : ℕ → (ℕ → Bool) → Bool
all_below zero test = true
all_below (suc n) test = test n && all_below n test

pub all_below_lem :
    (n : ℕ) (test : ℕ → Bool) (x : ℕ) → all_below n test ≡ true → x < n → test x ≡ true
unfolding all_below
all_below_lem zero test x e below = absurd (omega arith)
all_below_lem (suc n) test x e below = ground (arith, all_below_lem n test x)
