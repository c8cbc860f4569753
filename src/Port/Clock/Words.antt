-- ===== src/Port/Clock/Words.antt =====
-- port.c: the words that fscc_port_set_clock_bits sends to FCR.
use fscc_linux.Prelude.{
  ℕ, zero, suc, ◌-◌, ◌*◌, ◌/◌, ◌%◌, ◌^◌, ◌≡◌, refl, ap, ap₂, ◌∙◌, arith, inl, inr, List, [], ◌∷◌,
  ◌++◌, Bool-cases, length, length-append, get_or, bit_and, bit_or, bit_and-bit_or, bit_and_assoc,
  bit_or-zero, ◌==◌,
}
use fscc_linux.Kernel.{truthy}
use fscc_linux.Port.Clock.{clear, bit_words, byte_words, clock_words, fcr_words}

length-byte_words : (d c base byte n : ℕ) → length (byte_words d c base byte n) ≡ 2 * n
unfolding byte_words bit_words
length-byte_words d c base byte zero = refl
length-byte_words d c base byte (suc n) = omega (arith, length-byte_words d c base byte n)

length-clock_words :
    (d c base : ℕ) (clock : List ℕ) (n : ℕ) → length (clock_words d c base clock n) ≡ 16 * n
unfolding clock_words
length-clock_words d c base clock zero = refl
length-clock_words d c base clock (suc n) = omega (
  arith,
  length-append (byte_words d c base (get_or clock n 0) 8) (clock_words d c base clock n),
  length-byte_words d c base (get_or clock n 0) 8,
  length-clock_words d c base clock n,
)

-- Whatever the clock data, exactly the 323 words are made that the buffer has room for.
pub length-fcr_words :
    (channel orig : ℕ) (clock : List ℕ) → length (fcr_words channel orig clock) ≡ 323
unfolding fcr_words clock_words byte_words bit_words
length-fcr_words channel orig clock = omega (arith, length-append {0} {A = ℕ}, length-clock_words)

-- The bits of FCR that do not drive a clock generator.
abbrev pub others : ℕ
others = 0xfffff0f0

-- A property of every word of a list.
abbrev pub All : (ℕ → Type 0) → List ℕ → Type 0
All P [] = Unit
All P (w ∷ ws) = P w × All P ws

All-append : (P : ℕ → Type 0) (xs ys : List ℕ) → All P xs → All P ys → All P (xs ++ ys)
All-append P [] ys h k = k
All-append P (x ∷ xs) ys h k = (h.0, All-append P xs ys h.1 k)

abbrev pub Agrees : ℕ → ℕ → Type 0
Agrees orig w = bit_and w others ≡ bit_and orig others

-- The masks of a channel, and what they have to do with the other bits.
record IsMask (m : ℕ) : Type 0 where
  apart : bit_and m others ≡ 0
  cleared : bit_and (2 ^ 32 - 1 - m) others ≡ others

bit_or-Agrees : (orig a m : ℕ) → IsMask m → Agrees orig a → Agrees orig (bit_or a m)
bit_or-Agrees orig a m h k = bit_and-bit_or a m others ∙ ap₂ bit_or k h.apart ∙ bit_or-zero _

clear-Agrees : (orig a m : ℕ) → IsMask m → Agrees orig a → Agrees orig (clear a m)
clear-Agrees orig a m h k = bit_and_assoc a (2 ^ 32 - 1 - m) others ∙ ap (bit_and a) h.cleared ∙ k

module _ (orig d c : ℕ) (hd : IsMask d) (hc : IsMask c) where
  two_words-Agrees :
      (a : ℕ) → Agrees orig a → All (Agrees orig) (bit_or a c ∷ clear (bit_or a c) c ∷ [])
  two_words-Agrees a k =
      let high = bit_or-Agrees orig a c hc k in
      (high, (clear-Agrees orig (bit_or a c) c hc high, tt))

  bit_words-Agrees : (base bit : ℕ) → Agrees orig base → All (Agrees orig) (bit_words d c base bit)
  unfolding bit_words
  bit_words-Agrees base bit k = elim (Bool-cases (truthy bit)) [
    | inl set ↦ rw set (two_words-Agrees (bit_or base d) (bit_or-Agrees orig base d hd k))
    | inr unset ↦ rw unset (two_words-Agrees (clear base d) (clear-Agrees orig base d hd k))
  ]

  byte_words-Agrees :
      (base byte n : ℕ) → Agrees orig base → All (Agrees orig) (byte_words d c base byte n)
  unfolding byte_words
  byte_words-Agrees base byte zero k = tt
  byte_words-Agrees base byte (suc n) k =
      All-append (Agrees orig) (bit_words d c base (byte / 2 ^ n % 2)) (byte_words d c base byte n)
        (bit_words-Agrees base (byte / 2 ^ n % 2) k) (byte_words-Agrees base byte n k)

  clock_words-Agrees :
      (base : ℕ) (clock : List ℕ) (n : ℕ)
      → Agrees orig base
      → All (Agrees orig) (clock_words d c base clock n)
  unfolding clock_words
  clock_words-Agrees base clock zero k = tt
  clock_words-Agrees base clock (suc n) k =
      All-append (Agrees orig) (byte_words d c base (get_or clock n 0) 8)
        (clock_words d c base clock n) (byte_words-Agrees base (get_or clock n 0) 8 k)
        (clock_words-Agrees base clock n k)

  whole-Agrees :
      (s : ℕ) (clock : List ℕ)
      → IsMask s
      → All (Agrees orig) (
          bit_and orig others ∷ clock_words d c (bit_and orig others) clock 20
          ++ clear (bit_or (bit_and orig others) s) c ∷ orig ∷ [])
  whole-Agrees s clock hs = (
    base,
    All-append (Agrees orig) (clock_words d c (bit_and orig others) clock 20) _
        (clock_words-Agrees (bit_and orig others) clock 20 base)
        (
          clear-Agrees orig (bit_or (bit_and orig others) s) c hc
              (bit_or-Agrees orig (bit_and orig others) s hs base),
          (refl, tt),
        ),
  )
    where
      base : Agrees orig (bit_and orig others)
      base = bit_and_assoc orig others others

-- Every word that goes to FCR, on either channel and whatever the clock data, leaves the bits that
-- drive no clock generator as they were read.
pub fcr_words-Agrees :
    (channel orig : ℕ) (clock : List ℕ) → All (Agrees orig) (fcr_words channel orig clock)
unfolding fcr_words
fcr_words-Agrees channel orig clock = elim (Bool-cases (channel == 1)) [
  | inl second ↦ rw second (whole-Agrees orig 256 512 mask256 mask512 2048 clock mask2048)
  | inr first ↦ rw first (whole-Agrees orig 1 2 mask1 mask2 8 clock mask8)
]
  where
    mask1 : IsMask 1
    mask1 = record { apart = refl; cleared = refl }

    mask2 : IsMask 2
    mask2 = record { apart = refl; cleared = refl }

    mask8 : IsMask 8
    mask8 = record { apart = refl; cleared = refl }

    mask256 : IsMask 256
    mask256 = record { apart = refl; cleared = refl }

    mask512 : IsMask 512
    mask512 = record { apart = refl; cleared = refl }

    mask2048 : IsMask 2048
    mask2048 = record { apart = refl; cleared = refl }
