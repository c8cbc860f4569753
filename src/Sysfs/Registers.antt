-- ===== src/Sysfs/Registers.antt =====
-- sysfs.c: the attributes of the registers, and fscc_port_set_registers.
use Prim.Native.String.{String}
use fscc_linux.Prelude.{
  ℕ, zero, suc, ◌+◌, ◌*◌, ◌≤◌, ◌≡◌, refl, ap, ◌∙◌, arith, List, [], ◌∷◌, ◌++◌, some, none, false,
  replicate,
}
use fscc_linux.Kernel.{Env, u32}
use fscc_linux.Offsets.{max_offset}
use fscc_linux.State.{Port}
use fscc_linux.Utils.{str_to_register_offset, is_read_only_register}
use fscc_linux.Port.Access.{set_register}
use fscc_linux.Port.Registers.{update_value, set_one, set_from, set_registers}
use fscc_linux.Sysfs.{Strtoul, register_store}

-- The registers with one that is to be set, and FSCC_UPDATE_VALUE before it.
abbrev pub only : ℕ → ℕ → List ℕ
only i value = replicate i update_value ++ value ∷ []

set_one-skipped : (e : Env) (i : ℕ) (p : Port) → set_one e i update_value p ≡ (false, p)
unfolding set_one
set_one-skipped e i p = ground arith

set_from-only :
    (e : Env) (k i value : ℕ) (p : Port)
    → (set_from e k (only i value) false p).1 ≡ (set_one e (k + i) value p).1
unfolding set_from
set_from-only e k zero value p =
    let same : k ≡ k + 0 = omega arith in ap (λ j. (set_one e j value p).1) same
set_from-only e k (suc i) value p =
    let shift : k + 1 + i ≡ k + suc i = omega arith in
    rw (set_from, set_one-skipped e k p)
      (set_from-only e (k + 1) i value p ∙ ap (λ j. (set_one e j value p).1) shift)

set_registers-only :
    (e : Env) (i value : ℕ) (p : Port)
    → (set_registers e (only i value) p).1 ≡ (set_one e i value p).1
unfolding set_registers
set_registers-only e i value p =
    let same : 0 + i ≡ i = omega arith in
    set_from-only e 0 i value p ∙ ap (λ j. (set_one e j value p).1) same

-- A register that fscc_port_set_registers writes at its own offset of BAR 0.
set_one-direct :
    (e : Env) (i value : ℕ) (p : Port)
    → is_read_only_register (i * 4) ≡ false
    → i * 4 ≤ max_offset
    → (set_one e i (u32 value) p).1 ≡ (set_register e 0 (i * 4) (u32 value) p).1
unfolding set_one
set_one-direct e i value p writable small = ground arith

-- A write to an attribute with a known register.
pub register_store-known :
    (name : String) (bar offset : ℕ) (simple_strtoul : Strtoul) (e : Env) (buf : String) (count : ℕ)
    (p : Port)
    → str_to_register_offset name ≡ some offset
    → register_store name bar simple_strtoul e buf count p
      ≡ (count, (set_register e bar offset (u32 (simple_strtoul buf 16)) p).1)
unfolding register_store
register_store-known name bar offset strtoul e buf count p known = ground (arith, known)

-- A write to an attribute whose name is no register's.
pub register_store-unknown :
    (name : String) (bar : ℕ) (simple_strtoul : Strtoul) (e : Env) (buf : String) (count : ℕ)
    (p : Port)
    → str_to_register_offset name ≡ none
    → register_store name bar simple_strtoul e buf count p ≡ (0, p)
unfolding register_store
register_store-unknown name bar strtoul e buf count p unknown = ground (arith, unknown)

-- A write to the attribute of a register that can be written and lies at offset 4 * i of BAR 0, no
-- further than MAX_OFFSET, does to the port what fscc_port_set_registers does with the same number,
-- modulo 2 ^ 32, for register i and FSCC_UPDATE_VALUE for those before it; it returns the length of
-- what was written, also if the write to the card timed out.
pub register_store_lem :
    (name : String) (i : ℕ) (simple_strtoul : Strtoul) (e : Env) (buf : String) (count : ℕ)
    (p : Port)
    → str_to_register_offset name ≡ some (i * 4)
    → is_read_only_register (i * 4) ≡ false
    → i * 4 ≤ max_offset
    → register_store name 0 simple_strtoul e buf count p
      ≡ (count, (set_registers e (only i (u32 (simple_strtoul buf 16))) p).1)
register_store_lem name i strtoul e buf count p known writable small =
    rw
      (
        register_store-known name 0 (i * 4) strtoul e buf count p known,
        set_registers-only e i (u32 (strtoul buf 16)) p,
        set_one-direct e i (strtoul buf 16) p writable small,
      )
      refl
