-- ===== src/Utils/Offset.antt =====
-- utils.c: where a port's register lies on the card, the read-only registers, the device ids.
use fscc_linux.Prelude.{ℕ, ◌+◌, ◌*◌, ◌^◌, List, Bool, ◌||◌, if◌then◌else◌, ◌==◌, get_or}
use fscc_linux.Offsets.{
  star_offset, vstr_offset, dmaccr_offset, drdb_offset, dtdb_offset, dcrdb_offset, dctdb_offset,
}

-- On a little-endian machine: `*((__u32 *)data)`.
unfoldable pub chars_to_u32 : List ℕ → ℕ
chars_to_u32 b = get_or b 0 0 + get_or b 1 0 * 2 ^ 8 + get_or b 2 0 * 2 ^ 16 + get_or b 3 0 * 2 ^ 24

unfoldable pub is_read_only_register : ℕ → Bool
is_read_only_register offset = offset == star_offset || offset == vstr_offset

-- `port_offset`, from `port->channel`, the BAR and the register offset.
unfoldable pub port_offset : ℕ → ℕ → ℕ → ℕ
port_offset channel bar offset =
    if bar == 0
    then (if channel == 0 then offset else offset + 0x80)
    else if bar == 2
    then (if offset == dmaccr_offset
        then (if channel == 0 then offset else offset + 0x04)
        else if offset == drdb_offset
            || offset == dtdb_offset
            || offset == dcrdb_offset
            || offset == dctdb_offset
        then (if channel == 0 then offset else offset + 0x08)
        else offset)
    else offset

-- The device ids of config.h.
unfoldable pub is_fscc_device : ℕ → Bool
is_fscc_device device =
    device == 0x000f
    || device == 0x0014
    || device == 0x0015
    || device == 0x0016
    || device == 0x0017
    || device == 0x0018
    || device == 0x0019
    || device == 0x001a
    || device == 0x001b
    || device == 0x001c
    || device == 0x001d
    || device == 0x001e
    || device == 0x0023
    || device == 0x0025
    || device == 0x0026
    || device == 0x0027
    || device == 0x0022
