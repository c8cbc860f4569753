-- ===== src/Port/Clock/Bytes.antt =====
-- The 20 bytes that stand for the bits in the clock generator's shift register.
use fscc_linux.Prelude.{
  ℕ, zero, suc, ◌+◌, ◌*◌, ◌<◌, ◌≤◌, ◌≡◌, refl, ap, ap₂, ◌∙◌, arith, List, [], ◌∷◌, ◌++◌, get_or,
  take, drop, length, All, All-get_or, take_all,
}
use fscc_linux.Port.Clock.Generator.{byte_bits, setting_bits}

-- The number with these binary digits, the highest first, below `above`.
unfoldable pub digits_value : ℕ → List ℕ → ℕ
digits_value above [] = above
digits_value above (bit ∷ bits) = digits_value (2 * above + bit) bits

-- The bytes, the last one from the first eight bits.
unfoldable pub register_bytes : ℕ → List ℕ → List ℕ
register_bytes zero bits = []
register_bytes (suc i) bits = register_bytes i (drop 8 bits) ++ (digits_value 0 (take 8 bits) ∷ [])

abbrev pub IsByte : ℕ → Type 0
IsByte b = b < 256

digits_value-byte_bits : (b : ℕ) → IsByte b → digits_value 0 (byte_bits b 8) ≡ b
unfolding digits_value byte_bits
digits_value-byte_bits b small = omega arith

take_snoc :
    (n : ℕ) (xs : List ℕ) → n < length xs → take n xs ++ (get_or xs n 0 ∷ []) ≡ take (suc n) xs
take_snoc zero [] low = absurd (omega arith)
take_snoc zero (x ∷ xs) low = ap (λ t. x ∷ t) refl
take_snoc (suc n) [] low = absurd (omega arith)
take_snoc (suc n) (x ∷ xs) low = ap (λ t. x ∷ t) (take_snoc n xs (omega arith))

register_bytes-take :
    (n : ℕ) (bytes : List ℕ)
    → All IsByte bytes
    → n ≤ length bytes
    → register_bytes n (setting_bits bytes n) ≡ take n bytes
unfolding register_bytes setting_bits byte_bits
register_bytes-take zero bytes h low = refl
register_bytes-take (suc n) bytes h low =
    ap₂ (λ xs b. xs ++ (b ∷ [])) (register_bytes-take n bytes h (omega arith))
      (digits_value-byte_bits (get_or bytes n 0) (All-get_or IsByte bytes n 0 (omega arith) h))
    ∙ take_snoc n bytes (omega arith)

-- The shift register's 160 bits stand for the 20 bytes that they were taken from.
pub register_bytes-setting_bits :
    (bytes : List ℕ)
    → All IsByte bytes
    → length bytes ≡ 20
    → register_bytes 20 (setting_bits bytes 20) ≡ bytes
register_bytes-setting_bits bytes h n =
    register_bytes-take 20 bytes h (omega (arith, n)) ∙ take_all 20 bytes (omega (arith, n))
