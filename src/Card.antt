-- ===== src/Card.antt =====
-- card.c: register access on a card, which needs no port. The build is little-endian, where
-- le32_to_cpu and cpu_to_le32 change nothing and the code under __BIG_ENDIAN is not compiled.
pub mod Life
use fscc_linux.Prelude.{
  ℕ, ◌-◌, ◌*◌, ◌/◌, ◌%◌, List, [], ◌∷◌, ◌++◌, ◌&&◌, if◌then◌else◌, ltb, leb, take, drop,
}
use fscc_linux.Kernel.{
  Trace, read32, write32, read32_rep, write32_rep, Env, u32, truthy, fit, le_bytes,
}
use fscc_linux.Utils.{chars_to_u32}

-- fscc_card_get_register: the value read, and the trace with the read.
unfoldable pub get_register : Env → ℕ → ℕ → Trace → ℕ × Trace
get_register e bar offset t =
    if leb bar 2 then (u32 (e.ioread32 t bar offset), read32 bar offset ∷ t) else (0, t)

unfoldable pub set_register : ℕ → ℕ → ℕ → Trace → Trace
set_register bar offset value t = if leb bar 2 then write32 bar offset value ∷ t else t

-- fscc_card_get_register_rep: the bytes that it writes to `buf`.
unfoldable pub get_register_rep : Env → ℕ → ℕ → ℕ → Trace → List ℕ × Trace
get_register_rep e bar offset byte_count t =
    if leb bar 2 && ltb 0 byte_count
    then (let leftover_count = byte_count % 4 in
        let chunks = (byte_count - leftover_count) / 4 in
        let buf = fit (4 * chunks) (e.ioread32_rep t bar offset chunks) in
        let t1 = read32_rep bar offset chunks ∷ t in
        if truthy leftover_count
        then (
          buf ++ take leftover_count (le_bytes (u32 (e.ioread32 t1 bar offset))),
          read32 bar offset ∷ t1,
        )
        else (buf, t1))
    else ([], t)

-- fscc_card_set_register_rep: `chunks` words from `data`, then one word for the bytes left over.
unfoldable pub set_register_rep : ℕ → ℕ → List ℕ → ℕ → Trace → Trace
set_register_rep bar offset bytes byte_count t =
    if leb bar 2 && ltb 0 byte_count
    then (let leftover_count = byte_count % 4 in
        let chunks = (byte_count - leftover_count) / 4 in
        let t1 = write32_rep bar offset (take (4 * chunks) bytes) ∷ t in
        if truthy leftover_count
        then write32 bar offset (chars_to_u32 (drop (byte_count - leftover_count) bytes)) ∷ t1
        else t1)
    else t
