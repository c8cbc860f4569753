-- ===== src/Port/Clock/Generator.antt =====
-- The serial port of the clock generator on the lines that FCR drives. On a rising edge of the
-- clock it shifts in the data line, and a high strobe loads what was shifted in.
use fscc_linux.Prelude.{
  ℕ, zero, suc, ◌*◌, ◌/◌, ◌%◌, ◌^◌, Bool, false, not, ◌&&◌, if◌then◌else◌, Option, none, some, List,
  [], ◌∷◌, ◌++◌, ◌==◌, get_or, bit_and,
}
use fscc_linux.Kernel.{truthy}

-- The level of the line that `mask` drives.
abbrev pub level : ℕ → ℕ → Bool
level word mask = truthy (bit_and word mask)

-- The bits at the first high strobe, from those so far and the clock's level before.
unfoldable pub loaded : ℕ → ℕ → ℕ → Bool → List ℕ → List ℕ → Option (List ℕ)
loaded d c s before bits [] = none
loaded d c s before bits (w ∷ ws) =
    let shifted =
      if level w c && not before then bits ++ ((if level w d then 1 else 0) ∷ []) else bits in
    let rest = loaded d c s (level w c) shifted ws in if level w s then some bits else rest

-- The bits of a byte below the one given, the highest first, and those of the bytes of a setting,
-- the last byte first.
unfoldable pub byte_bits : ℕ → ℕ → List ℕ
byte_bits byte zero = []
byte_bits byte (suc j) = byte / 2 ^ j % 2 ∷ byte_bits byte j

unfoldable pub setting_bits : List ℕ → ℕ → List ℕ
setting_bits bytes zero = []
setting_bits bytes (suc i) = byte_bits (get_or bytes i 0) 8 ++ setting_bits bytes i

-- What the generator loads from the words of a channel: its lines are bits 0, 1 and 3, or 8, 9
-- and 11.
abbrev pub generator_loads : ℕ → List ℕ → Option (List ℕ)
generator_loads channel words =
    let shift = if channel == 1 then 2 ^ 8 else 1 in
    loaded (0x00000001 * shift) (0x00000002 * shift) (0x00000008 * shift) false [] words
