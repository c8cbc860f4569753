-- ===== src/Io/Fifo/Chunks.antt =====
-- io.c: the bytes that one descriptor puts into the transmit FIFO.
use fscc_linux.Prelude.{
  ℕ, zero, suc, ◌+◌, ◌-◌, ◌*◌, ◌/◌, ◌%◌, ◌^◌, ◌≤◌, ◌<◌, ◌≡◌, refl, ◌∙◌, sym, ap, arith, List, [],
  ◌∷◌, ◌++◌, append-nil, append_assoc, true, ◌&&◌, Bool-cases, inl, inr, if◌then◌else◌, ltb, ◌==◌,
  length, take, drop, length-take, length-drop, length-append, take-append-drop, All, All-get_or,
  get_or,
}
use fscc_linux.Kernel.{Trace, write32, write32_rep, truthy, le_bytes}
use fscc_linux.State.{IoFrame, Port}
use fscc_linux.Offsets.{fifo_offset}
use fscc_linux.Utils.{port_offset, chars_to_u32}
use fscc_linux.Card
use fscc_linux.Port.Access.{set_register_rep}

-- The bytes that a port's calls have put into the register at `address` of BAR 0, the first first.
unfoldable pub bytes_at : ℕ → Trace → List ℕ
bytes_at address [] = []
bytes_at address (write32_rep bar offset bytes ∷ t) =
    bytes_at address t ++ (if bar == 0 && offset == address then bytes else [])
bytes_at address (write32 bar offset value ∷ t) =
    bytes_at address t ++ (if bar == 0 && offset == address then le_bytes value else [])
bytes_at address (_ ∷ t) = bytes_at address t

abbrev pub fifo_content : Port → List ℕ
fifo_content p = bytes_at (port_offset p.channel 0 fifo_offset) p.trace

-- A descriptor whose count is within its buffer of bytes.
pub record IsFilled (f : IoFrame) : Type 0 where
  pub within : f.desc.data_count ≤ length f.buffer
  pub bytes : All (λ b. b < 256) f.buffer

-- What one call of fscc_port_set_register_rep puts out.
abbrev pub chunk_of : List ℕ → ℕ → List ℕ
chunk_of bytes n =
    take (4 * ((n - n % 4) / 4)) bytes
    ++ (if truthy (n % 4) then le_bytes (chars_to_u32 (drop (n - n % 4) bytes)) else [])

==-refl : (n : ℕ) → (n == n) ≡ true
==-refl n = ground arith

pub set_register_rep-chunk :
    (bytes : List ℕ) (n : ℕ) (p : Port)
    → fifo_content (set_register_rep 0 fifo_offset bytes n p) ≡ fifo_content p ++ chunk_of bytes n
unfolding set_register_rep Card.set_register_rep bytes_at
set_register_rep-chunk bytes n p = elim (Bool-cases (ltb 0 n)) [
  | inr none_left ↦ let e : n ≡ 0 = ground arith in rw e (sym (append-nil (fifo_content p)))
  | inl some_left ↦ elim (Bool-cases (truthy (n % 4))) [
    | inl odd ↦
        rw (some_left, odd, ==-refl (port_offset p.channel 0 0))
          (append_assoc (fifo_content p) (take (4 * ((n - n % 4) / 4)) bytes)
            (le_bytes (chars_to_u32 (drop (n - n % 4) bytes))))
    | inr even ↦ rw (some_left, even, ==-refl (port_offset p.channel 0 0), append-nil) refl
  ]
]

le_bytes_words :
    (a b c d : ℕ)
    → a < 256
    → b < 256
    → c < 256
    → d < 256
    → le_bytes (a + b * 2 ^ 8 + c * 2 ^ 16 + d * 2 ^ 24) ≡ a ∷ b ∷ c ∷ d ∷ []
le_bytes_words a b c d ha hb hc hd =
    let first : (a + b * 2 ^ 8 + c * 2 ^ 16 + d * 2 ^ 24) % 256 ≡ a = omega arith in
    let second : (a + b * 2 ^ 8 + c * 2 ^ 16 + d * 2 ^ 24) / 2 ^ 8 % 256 ≡ b = omega arith in
    let third : (a + b * 2 ^ 8 + c * 2 ^ 16 + d * 2 ^ 24) / 2 ^ 16 % 256 ≡ c = omega arith in
    let last : (a + b * 2 ^ 8 + c * 2 ^ 16 + d * 2 ^ 24) / 2 ^ 24 % 256 ≡ d = omega arith in
    rw (first, second, third, last) refl

take_four :
    (k : ℕ) (xs : List ℕ)
    → k < 4
    → k ≤ length xs
    → take k (get_or xs 0 0 ∷ get_or xs 1 0 ∷ get_or xs 2 0 ∷ get_or xs 3 0 ∷ []) ≡ take k xs
take_four zero xs low long = refl
take_four (suc k) [] low long = absurd (omega arith)
take_four (suc zero) (x ∷ xs) low long = refl
take_four (suc (suc k)) (x ∷ []) low long = absurd (omega arith)
take_four (suc (suc zero)) (x ∷ y ∷ xs) low long = refl
take_four (suc (suc (suc k))) (x ∷ y ∷ []) low long = absurd (omega arith)
take_four (suc (suc (suc zero))) (x ∷ y ∷ z ∷ xs) low long = refl
take_four (suc (suc (suc (suc k)))) (x ∷ y ∷ z ∷ xs) low long = absurd (omega arith)

-- The last word holds the bytes left over.
le_bytes-chars_to_u32 :
    (k : ℕ) (xs : List ℕ)
    → k < 4
    → k ≤ length xs
    → All (λ b. b < 256) xs
    → take k (le_bytes (chars_to_u32 xs)) ≡ take k xs
unfolding chars_to_u32
le_bytes-chars_to_u32 k xs low long small =
    let byte : (i : ℕ) → get_or xs i 0 < 256 =
      λ i. All-get_or (λ b. b < 256) xs i 0 (omega arith) small in
    rw
      (le_bytes_words (get_or xs 0 0) (get_or xs 1 0) (get_or xs 2 0) (get_or xs 3 0) (byte 0)
        (byte 1) (byte 2) (byte 3))
      (take_four k xs low long)

take_past : (xs ys : List ℕ) (k n : ℕ) → n ≡ length xs + k → take n (xs ++ ys) ≡ xs ++ take k ys
take_past [] ys k n e = ap (λ m. take m ys) (omega (arith, e))
take_past (x ∷ xs) ys k zero e = absurd (omega (arith, e))
take_past (x ∷ xs) ys k (suc n) e = ap (λ t. x ∷ t) (take_past xs ys k n (omega (arith, e)))

All-drop : (n : ℕ) (xs : List ℕ) → All (λ b. b < 256) xs → All (λ b. b < 256) (drop n xs)
All-drop zero xs h = h
All-drop (suc n) [] h = tt
All-drop (suc n) (x ∷ xs) h = All-drop n xs h.1

left_over :
    (k : ℕ) (xs : List ℕ)
    → k < 4
    → k ≤ length xs
    → All (λ b. b < 256) xs
    → take k (if truthy k then le_bytes (chars_to_u32 xs) else []) ≡ take k xs
left_over zero xs low long small = refl
left_over (suc k) xs low long small =
    let e : truthy (suc k) ≡ true = ground arith in
    rw e (le_bytes-chars_to_u32 (suc k) xs low long small)

pub take-chunk_of :
    (n : ℕ) (bytes : List ℕ)
    → n ≤ length bytes
    → All (λ b. b < 256) bytes
    → take n (chunk_of bytes n) ≡ take n bytes
take-chunk_of n bytes long small =
    let whole : 4 * ((n - n % 4) / 4) ≡ n - n % 4 = omega arith in
    let sum : n ≡ length (take (n - n % 4) bytes) + n % 4 =
      omega (arith, length-take (n - n % 4) bytes) in
    rw whole (
      take_past (take (n - n % 4) bytes) _ (n % 4) n sum
      ∙ ap (λ t. take (n - n % 4) bytes ++ t)
          (left_over (n % 4) (drop (n - n % 4) bytes) (omega arith)
            (omega (arith, length-drop (n - n % 4) bytes)) (All-drop (n - n % 4) bytes small))
      ∙ sym (take_past (take (n - n % 4) bytes) (drop (n - n % 4) bytes) (n % 4) n sum)
      ∙ ap (take n) (take-append-drop (n - n % 4) bytes))

pub length-chunk_of :
    (n : ℕ) (bytes : List ℕ) → n ≤ length bytes → length (chunk_of bytes n) ≡ (n + 3) / 4 * 4
length-chunk_of n bytes long =
    rw length-append (ground (arith, length-take (4 * ((n - n % 4) / 4)) bytes))
