-- ===== src/Port/Clock.antt =====
-- port.c: fscc_port_set_clock_bits, which sends the clock generator's 160 bits through FCR.
pub mod Words
pub mod Generator
pub mod Shift
pub mod Bytes
use fscc_linux.Prelude.{
  ℕ, zero, suc, ◌+◌, ◌-◌, ◌*◌, ◌/◌, ◌%◌, ◌^◌, ◌≤◌, ◌<◌, List, [], ◌∷◌, ◌++◌, ◌&&◌, if◌then◌else◌,
  leb, ◌==◌, bit_and, bit_or, get_or, set, length,
}
use fscc_linux.Kernel.{Env, kzalloc, kfree, spin_lock, spin_unlock, settings_lock, truthy, le_bytes}
use fscc_linux.Offsets.{fcr_offset}
use fscc_linux.State.{Port, emit}
use fscc_linux.Card
use fscc_linux.Port.Access.{get_pdev, get_prev, set_register_rep}

-- `value & ~mask` on 32 bits
abbrev pub clear : ℕ → ℕ → ℕ
clear value mask = bit_and value (2 ^ 32 - 1 - mask)

-- The two words of one bit: the data bit with the clock high, then with the clock low.
unfoldable pub bit_words : ℕ → ℕ → ℕ → ℕ → List ℕ
bit_words dta_value clk_value base bit =
    let new_fcr_value = if truthy bit then bit_or base dta_value else clear base dta_value in
    let high = bit_or new_fcr_value clk_value in high ∷ clear high clk_value ∷ []

-- The loop over `j`, from the bit below `left` down to bit 0.
unfoldable pub byte_words : ℕ → ℕ → ℕ → ℕ → ℕ → List ℕ
byte_words dta_value clk_value base byte zero = []
byte_words dta_value clk_value base byte (suc j) =
    bit_words dta_value clk_value base (byte / 2 ^ j % 2)
    ++ byte_words dta_value clk_value base byte j

-- The loop over `i`, from the byte below `left` down to byte 0.
unfoldable pub clock_words : ℕ → ℕ → ℕ → List ℕ → ℕ → List ℕ
clock_words dta_value clk_value base clock_data zero = []
clock_words dta_value clk_value base clock_data (suc i) =
    byte_words dta_value clk_value base (get_or clock_data i 0) 8
    ++ clock_words dta_value clk_value base clock_data i

-- `data`, from FCR as it was read and the bits to set on the channel.
unfoldable pub fcr_words : ℕ → ℕ → List ℕ → List ℕ
fcr_words channel orig_fcr_value clock_data =
    let shift = if channel == 1 then 2 ^ 8 else 1 in
    let strb_value = 0x00000008 * shift in
    let dta_value = 0x00000001 * shift in
    let clk_value = 0x00000002 * shift in
    let base = bit_and orig_fcr_value 0xfffff0f0 in
    base ∷ clock_words dta_value clk_value base clock_data 20
    ++ clear (bit_or base strb_value) clk_value ∷ orig_fcr_value ∷ []

-- The words as they lie in memory.
unfoldable pub words_bytes : List ℕ → List ℕ
words_bytes [] = []
words_bytes (w ∷ ws) = le_bytes w ++ words_bytes ws

-- Byte 15 with XTAL enabled, or disabled on a green card of revision 6 or below.
unfoldable pub xtal : ℕ → ℕ → ℕ → ℕ
xtal pdev prev byte = if pdev == 0x0f && leb prev 6 then bit_and byte 0xfb else bit_or byte 0x04

-- Byte 15 of the caller's array is changed in place; no caller reads it afterwards.
unfoldable pub set_clock_bits : Env → List ℕ → Port → Port
set_clock_bits e clock_data p =
    let (pdev, p1) = get_pdev e p in
    let (prev, p2) = if pdev == 0x0f then get_prev e p1 else (0, p1) in
    let clock = set clock_data 15 (xtal pdev prev (get_or clock_data 15 0)) in
    let p3 = emit (kzalloc (4 * 323)) p2 in
    if e.allocates p2.trace (4 * 323)
    then (let p4 = emit (spin_lock settings_lock) p3 in
        let (orig_fcr_value, t) = Card.get_register e 2 fcr_offset p4.trace in
        let p5 = record p4 { trace = t } in
        let words = fcr_words p.channel orig_fcr_value clock in
        let p6 = set_register_rep 2 fcr_offset (words_bytes words) (length words * 4) p5 in
        emit kfree (emit (spin_unlock settings_lock) p6))
    else p3
