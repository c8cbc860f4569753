-- ===== src/Driver/Devices.antt =====
-- fscc_id_table of main.c and is_fscc_device of utils.c.
use fscc_linux.Prelude.{ℕ, ◌≡◌, arith, List, [], ◌∷◌, Bool, false, not, ◌&&◌, ◌||◌, ◌==◌}
use fscc_linux.Utils.{is_fscc_device}
use fscc_linux.Card.Life.{has_dma}
use fscc_linux.Driver.{fscc_id_table}

abbrev pub listed : ℕ → List ℕ → Bool
listed device [] = false
listed device (id ∷ ids) = device == id || listed device ids

-- A device is served by fscc_init exactly if its id is in the table that the PCI core matches
-- devices with, and fscc_card_new takes none but such a device to have a DMA engine.
pub is_fscc_device_lem :
    (device : ℕ)
    → (is_fscc_device device ≡ listed device fscc_id_table)
      × ((has_dma device && not (is_fscc_device device)) ≡ false)
unfolding is_fscc_device fscc_id_table has_dma
is_fscc_device_lem device = (ground arith, ground arith)
