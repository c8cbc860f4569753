-- ===== src/Utils/Addresses.antt =====
-- utils.c: where port_offset puts the registers that are a port's own.
use fscc_linux.Prelude.{ℕ, ◌≤◌, ◌≡◌, ◌≢◌, ◌⊎◌, arith}
use fscc_linux.Offsets.{
  max_offset, dmaccr_offset, drdb_offset, dtdb_offset, dcrdb_offset, dctdb_offset,
}
use fscc_linux.Utils.Offset.{port_offset}

-- The registers that each port has for itself: those of BAR 0, and the DMA registers of BAR 2.
abbrev pub IsOwn : ℕ → ℕ → Type 0
IsOwn bar offset =
    ((bar ≡ 0) × (offset ≤ max_offset))
    ⊎ ((bar ≡ 2)
        × ((offset ≡ dmaccr_offset)
            ⊎ (offset ≡ drdb_offset)
            ⊎ (offset ≡ dtdb_offset)
            ⊎ (offset ≡ dcrdb_offset)
            ⊎ (offset ≡ dctdb_offset)))

-- The offsets that `port_offset` gives the two ports of a card for their own registers, the same
-- register or two different ones of one BAR, never coincide.
pub port_offset-disjoint :
    (bar a b : ℕ) → IsOwn bar a → IsOwn bar b → port_offset 0 bar a ≢ port_offset 1 bar b
unfolding port_offset
port_offset-disjoint bar a b ha hb = ground arith

-- On one channel, two of the port's own registers of a BAR have different offsets on the card.
pub port_offset-injective :
    (channel bar a b : ℕ)
    → IsOwn bar a
    → IsOwn bar b
    → port_offset channel bar a ≡ port_offset channel bar b
    → a ≡ b
unfolding port_offset
port_offset-injective channel bar a b ha hb e = ground arith
