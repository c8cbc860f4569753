-- ===== src/Sysfs/Counts.antt =====
-- sysfs.c: the counters of the interrupts, by name.
use Prim.Native.String.{String}
use fscc_linux.Prelude.{
  ℕ, ◌/◌, ◌%◌, ◌+◌, ◌^◌, ◌<◌, ◌≡◌, refl, arith, length, if◌then◌else◌, ◌==◌, All, ap, ◌∙◌, some,
  List, [], ◌∷◌,
}
use fscc_linux.Kernel.{u32}
use fscc_linux.Utils.{str_to_interrupt_offset}
use fscc_linux.Debug.{Tracker, increment_all, get_count}
use fscc_linux.Debug.Counts.{get_count-increment_all}
use fscc_linux.Sysfs.{decimal, interrupt_count, debug_attrs}

-- What the attribute of bit `k` prints after the status `v` is counted.
abbrev pub counted : Tracker → ℕ → ℕ → ℕ
counted tracker v k =
    if v / 2 ^ k % 2 == 1 then u32 (get_count tracker (2 ^ k) + 1) else get_count tracker (2 ^ k)

-- The attribute shows the counter of the bit, which counts the interrupts with that bit.
abbrev pub Counts : Tracker → ℕ → String × ℕ → Type 0
Counts tracker v (name, k) =
    (interrupt_count name tracker ≡ decimal (get_count tracker (2 ^ k)))
    × (interrupt_count name (increment_all tracker v) ≡ decimal (counted tracker v k))

named-Counts :
    (tracker : Tracker) (v k : ℕ) (name : String)
    → length tracker ≡ 32
    → str_to_interrupt_offset name ≡ some (2 ^ k)
    → k < 32
    → Counts tracker v (name, k)
unfolding interrupt_count
named-Counts tracker v k name len known small = (
  ground (arith, known),
  shown known ∙ ap decimal (get_count-increment_all tracker v k len small),
)
  where
    shown :
        str_to_interrupt_offset name ≡ some (2 ^ k)
        → interrupt_count name (increment_all tracker v)
          ≡ decimal (get_count (increment_all tracker v) (2 ^ k))
    shown h = ground (arith, h)

-- The bits of ISR by the names of the card's manual.
abbrev pub bits : List (String × ℕ)
bits =
    ("rfs", 0)
    ∷ ("rft", 1)
    ∷ ("rfe", 2)
    ∷ ("rfo", 3)
    ∷ ("rdo", 4)
    ∷ ("rfl", 5)
    ∷ ("tin", 8)
    ∷ ("dr_hi", 10)
    ∷ ("dt_hi", 11)
    ∷ ("dr_fe", 12)
    ∷ ("dt_fe", 13)
    ∷ ("dr_stop", 14)
    ∷ ("dt_stop", 15)
    ∷ ("tft", 16)
    ∷ ("alls", 17)
    ∷ ("tdu", 18)
    ∷ ("ctss", 24)
    ∷ ("dsrc", 25)
    ∷ ("cdc", 26)
    ∷ ("ctsa", 27)
    ∷ []

abbrev pub names : List (String × ℕ) → List String
names [] = []
names ((name, k) ∷ rest) = name ∷ names rest

-- The attributes of the group "debug" are named after the bits of the interrupt status, and the
-- attribute of each bit shows the counter of that bit. Once an interrupt status is counted, in a
-- tracker of 32 counters, it shows one more, wrapped to 32 bits, if the status has that bit, and
-- else what it showed.
pub debug_attrs-Counts :
    (tracker : Tracker) (v : ℕ)
    → length tracker ≡ 32
    → (names bits ≡ debug_attrs) × All (Counts tracker v) bits
unfolding debug_attrs str_to_interrupt_offset
debug_attrs-Counts tracker v len = (
  refl,
  (
    bit _ 0 refl (omega arith),
    (
      bit _ 1 refl (omega arith),
      (
        bit _ 2 refl (omega arith),
        (
          bit _ 3 refl (omega arith),
          (
            bit _ 4 refl (omega arith),
            (
              bit _ 5 refl (omega arith),
              (
                bit _ 8 refl (omega arith),
                (
                  bit _ 10 refl (omega arith),
                  (
                    bit _ 11 refl (omega arith),
                    (
                      bit _ 12 refl (omega arith),
                      (
                        bit _ 13 refl (omega arith),
                        (
                          bit _ 14 refl (omega arith),
                          (
                            bit _ 15 refl (omega arith),
                            (
                              bit _ 16 refl (omega arith),
                              (
                                bit _ 17 refl (omega arith),
                                (
                                  bit _ 18 refl (omega arith),
                                  (
                                    bit _ 24 refl (omega arith),
                                    (
                                      bit _ 25 refl (omega arith),
                                      (
                                        bit _ 26 refl (omega arith),
                                        (bit _ 27 refl (omega arith), tt),
                                      ),
                                    ),
                                  ),
                                ),
                              ),
                            ),
                          ),
                        ),
                      ),
                    ),
                  ),
                ),
              ),
            ),
          ),
        ),
      ),
    ),
  ),
)
  where
    bit :
        (name : String) (k : ℕ)
        → str_to_interrupt_offset name ≡ some (2 ^ k)
        → k < 32
        → Counts tracker v (name, k)
    bit name k = named-Counts tracker v k name len
