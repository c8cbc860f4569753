-- ===== src/Port/Registers.antt =====
-- port.c: setting and reading all registers at once, and what suspend and resume do with them.
-- A register of `struct fscc_registers` is a 64-bit pattern: a value from 2 ^ 63 on is negative.
pub mod Stored
use fscc_linux.Prelude.{
  ℕ, ◌+◌, ◌-◌, ◌*◌, ◌^◌, List, [], ◌∷◌, Bool, true, false, ◌||◌, if◌then◌else◌, leb, ◌==◌,
}
use fscc_linux.Kernel.{Env, Errno, etimedout, Ret, ok, err, u32}
use fscc_linux.Offsets.{max_offset, fcr_offset}
use fscc_linux.State.{Port}
use fscc_linux.Utils.{is_read_only_register}
use fscc_linux.Port.Access.{get_register, set_register}

abbrev pub negative : ℕ → Bool
negative value = leb (2 ^ 63) value

-- FSCC_UPDATE_VALUE, -2
abbrev pub update_value : ℕ
update_value = 2 ^ 64 - 2

abbrev pub is_timeout : Ret → Bool
is_timeout (err etimedout) = true
is_timeout _ = false

-- One round of the loop of fscc_port_set_registers: did the write time out?
unfoldable pub set_one : Env → ℕ → ℕ → Port → Bool × Port
set_one e i value p =
    let register_offset = i * 4 in
    if is_read_only_register register_offset || negative value
    then (false, p)
    else if leb register_offset max_offset
    then (let (r, p1) = set_register e 0 register_offset (u32 value) p in (is_timeout r, p1))
    else (let (r, p1) = set_register e 2 fcr_offset (u32 value) p in (false, p1))

-- The loop: the registers from index `i` on.
unfoldable pub set_from : Env → ℕ → List ℕ → Bool → Port → Bool × Port
set_from e i [] stalled p = (stalled, p)
set_from e i (value ∷ regs) stalled p =
    let (late, p1) = set_one e i value p in set_from e (i + 1) regs (late || stalled) p1

unfoldable pub set_registers : Env → List ℕ → Port → Ret × Port
set_registers e regs p =
    let (stalled, p1) = set_from e 0 regs false p in (if stalled then err etimedout else ok 1, p1)

unfoldable pub get_one : Env → ℕ → ℕ → Port → ℕ × Port
get_one e i value p =
    if value == update_value
    then (if leb (i * 4) max_offset
        then get_register e 0 (i * 4) p
        else get_register e 2 fcr_offset p)
    else (value, p)

unfoldable pub get_from : Env → ℕ → List ℕ → Port → List ℕ × Port
get_from e i [] p = ([], p)
get_from e i (value ∷ regs) p =
    let (v, p1) = get_one e i value p in let (vs, p2) = get_from e (i + 1) regs p1 in (v ∷ vs, p2)

unfoldable pub get_registers : Env → List ℕ → Port → List ℕ × Port
get_registers e regs p = get_from e 0 regs p

unfoldable pub suspend : Env → Port → Port
suspend e p =
    let (regs, p1) = get_registers e p.register_storage p in record p1 { register_storage = regs }

unfoldable pub resume : Env → Port → Port
resume e p = (set_registers e p.register_storage p).1
