-- ===== src/ClockBits/Fields/Products.antt =====
-- lib/raw/calculate-clock-bits.c: the loop of table 5, on bytes 11 to 13.
use fscc_linux.Prelude.{
  ℕ, ◌+◌, ◌-◌, ◌*◌, ◌/◌, ◌%◌, ◌^◌, ◌≤◌, ◌<◌, ◌≡◌, ◌≢◌, refl, arith, Bool, true, ◌&&◌, ltb, ◌==◌,
  List, [], get_or, bit_or, bit_and, leb, ◌⊎◌, inl, inr, Bool-cases, some, none, first_from,
  first_from-none, first_from-some, Option-cases,
}
use mathlib.Core.Option
use fscc_linux.ClockBits.Tables.{try_x, scaled_divider, is_short, divider_bits}
use fscc_linux.ClockBits.Decode.{decode_scaled}
use fscc_linux.ClockBits.Settings.{IsVisited}
use fscc_linux.ClockBits.Fields.{word, all_below, all_below_lem}

-- Bit 7 of byte 11
top_table : all_below 128 (λ f. bit_or f 0x80 == f + 128 && bit_and f 0x7f == f) ≡ true
unfolding all_below
top_table = refl

pub top_bit : (f : ℕ) → f < 128 → (bit_or f 0x80 ≡ f + 128) × (bit_and f 0x7f ≡ f)
top_bit f small =
    ground
      (arith, all_below_lem 128 (λ f. bit_or f 0x80 == f + 128 && bit_and f 0x7f == f) f top_table)

-- A round of the loop, on the bytes as the tables before leave them.
unfoldable pub x_byte : ℕ → ℕ → ℕ → ℕ
x_byte k od x = get_or (Option.get_or (try_x od (word 0 0 0 0 0 0x40 0 0) x) []) k 0

try_x-word :
    (od x a b c f g h : ℕ) (q : List ℕ)
    → try_x od (word a b c f 0 0x40 g h) x ≡ some q
    → q ≡ word a b c f (x_byte 12 od x) (x_byte 13 od x) g h
unfolding try_x x_byte
try_x-word od x a b c f g h q e = ground arith

-- The products that a round is for, in the order of its branches.
abbrev IsProduct : ℕ → ℕ → Type 0
IsProduct od x =
    (od ≡ ((x + 3) * 2 + 0) * 1)
    ⊎ (od ≡ ((x + 3) * 2 + 0) * 2)
    ⊎ (od ≡ ((x + 3) * 2 + 0) * 4)
    ⊎ (od ≡ ((x + 3) * 2 + 0) * 8)
    ⊎ (od ≡ ((x + 3) * 2 + 1) * 1)
    ⊎ (od ≡ ((x + 3) * 2 + 1) * 2)
    ⊎ (od ≡ ((x + 3) * 2 + 1) * 4)
    ⊎ (od ≡ ((x + 3) * 2 + 1) * 8)

try_x-IsProduct : (od x : ℕ) (p q : List ℕ) → try_x od p x ≡ some q → IsProduct od x
unfolding try_x
try_x-IsProduct od x p q e = ground arith

try_x_hits : (od x : ℕ) (p : List ℕ) → IsProduct od x → try_x od p x ≢ none
unfolding try_x
try_x_hits od x p k e = ground arith

-- Every divider of the search that has no other form is a product.
visited-IsProduct : (od : ℕ) → IsVisited od → 38 ≤ od → (x : ℕ) × (x < 512) × IsProduct od x
visited-IsProduct od v long = elim (Bool-cases (leb od 1029)) [
  | inl e ↦ (od / 2 - 3, ground arith, ground arith)
  | inr n1 ↦ elim (Bool-cases (leb od 2058)) [
    | inl e ↦ (od / 4 - 3, ground (arith, v.grid.even), ground (arith, v.grid.even))
    | inr n2 ↦ elim (Bool-cases (leb od 4116)) [
      | inl e ↦ (od / 8 - 3, ground (arith, v.grid.quads), ground (arith, v.grid.quads))
      | inr n3 ↦
          (od / 16 - 3, ground (arith, v.grid.octets, v.grid.high), ground (arith, v.grid.octets))
    ]
  ]
]

-- Bytes 12 and 13 after the loop
abbrev pub scaled_low : ℕ → ℕ → ℕ
scaled_low od x = bit_or (bit_and (x_byte 12 od x) 0xfe) 0x02

abbrev shape : ℕ → ℕ → ℕ → Bool
shape x y z =
    (let od = ((x + 3) * 2 + y) * 2 ^ z in
      decode_scaled (scaled_low od x) (x_byte 13 od x) == od
      && scaled_low od x / 2 % 2 == 1
      && ltb (scaled_low od x) 256
      && ltb (x_byte 13 od x) 256)

shape_table : all_below 512 (λ x. all_below 2 (λ y. all_below 4 (shape x y))) ≡ true
unfolding all_below try_x x_byte decode_scaled
shape_table = refl

abbrev pub Decoded : ℕ → ℕ → Type 0
Decoded od x =
    (decode_scaled (scaled_low od x) (x_byte 13 od x) ≡ od)
    × (scaled_low od x / 2 % 2 ≡ 1)
    × (scaled_low od x < 256)
    × (x_byte 13 od x < 256)

shape-Decoded : (x y z : ℕ) → x < 512 → y < 2 → z < 4 → Decoded (((x + 3) * 2 + y) * 2 ^ z) x
shape-Decoded x y z hx hy hz = ground (
  arith,
  all_below_lem 512 (λ x. all_below 2 (λ y. all_below 4 (shape x y))) x shape_table,
  all_below_lem 2 (λ y. all_below 4 (shape x y)) y,
  all_below_lem 4 (shape x y) z,
)

product-Decoded : (od x : ℕ) → x < 512 → IsProduct od x → Decoded od x
product-Decoded od x low k = elim k [
  | inl e ↦ rw e (shape-Decoded x 0 0 low (omega arith) (omega arith))
  | inr (inl e) ↦ rw e (shape-Decoded x 0 1 low (omega arith) (omega arith))
  | inr (inr (inl e)) ↦ rw e (shape-Decoded x 0 2 low (omega arith) (omega arith))
  | inr (inr (inr (inl e))) ↦ rw e (shape-Decoded x 0 3 low (omega arith) (omega arith))
  | inr (inr (inr (inr (inl e)))) ↦ rw e (shape-Decoded x 1 0 low (omega arith) (omega arith))
  | inr (inr (inr (inr (inr (inl e))))) ↦ rw e (shape-Decoded x 1 1 low (omega arith) (omega arith))
  | inr (inr (inr (inr (inr (inr (inl e)))))) ↦
      rw e (shape-Decoded x 1 2 low (omega arith) (omega arith))
  | inr (inr (inr (inr (inr (inr (inr e)))))) ↦
      rw e (shape-Decoded x 1 3 low (omega arith) (omega arith))
]

-- The loop ends on a round that is for the divider.
loop_hits :
    (od : ℕ) (p : List ℕ)
    → 38 ≤ od
    → IsVisited od
    → (x : ℕ) × (q : List ℕ) × (x < 512)
      × (try_x od p x ≡ some q)
      × (first_from (try_x od p) 0 512 ≡ some q)
loop_hits od p long v = elim (Option-cases (first_from (try_x od p) 0 512)) [
  | inl e ↦
      let (x, low, k) = visited-IsProduct od v long in
      absurd
        (try_x_hits od x p k (first_from-none (try_x od p) 0 512 e x (omega arith) (omega arith)))
  | inr (q, e) ↦
      let found = first_from-some (try_x od p) 0 512 q e in
      (found.at, q, omega (arith, found.below), found.answers, e)
]

long_scaled : (od : ℕ) (p : List ℕ) → 38 ≤ od → divider_bits od p ≡ scaled_divider od p
unfolding divider_bits is_short
long_scaled od p long = ground arith

pub long_word :
    (od a b c f g h : ℕ)
    → f < 128
    → 38 ≤ od
    → IsVisited od
    → (x : ℕ) × (Decoded od x)
      × (divider_bits od (word a b c f 0 0x40 g h)
          ≡ word a b c (f + 128) (scaled_low od x) (x_byte 13 od x) g h)
unfolding scaled_divider
long_word od a b c f g h small long v =
    let (x, q, low, hit, e) = loop_hits od (word a b c f 0 0x40 g h) long v in
    (
      x,
      product-Decoded od x low (try_x-IsProduct od x _ q hit),
      rw
          (
            long_scaled od (word a b c f 0 0x40 g h) long,
            e,
            try_x-word od x a b c f g h q hit,
            (top_bit f small).0,
          )
          refl,
    )
