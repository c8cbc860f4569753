-- ===== src/Card/Life.antt =====
-- card.c: fscc_card_new and fscc_card_delete, and what is done to both ports of a card. A card is
-- known by its PCI device, here a number; `device` is the id in the device. The addresses of the
-- BARs and the minor numbers are left out, as nothing of the model depends on them.
use Prim.Native.String.{String}
use fscc_linux.Prelude.{
  ℕ, zero, suc, ◌+◌, Option, none, some, List, [], ◌∷◌, Bool, true, false, ◌||◌, if◌then◌else◌,
  ◌==◌,
}
use fscc_linux.Kernel.{
  Env, Trace, kmalloc_card, dma_set_mask_and_coherent, pci_set_master, pci_request_region,
  pci_release_region, pci_iomap, kfree, truthy,
}
use fscc_linux.State.{Port}
use fscc_linux.Port.Registers.{suspend, resume}
use fscc_linux.Port.Life.{port_new, port_delete}

pub record PciDevice : Type 0 where
  pub pci_dev : ℕ
  pub device : ℕ

pub record Card : Type 0 where
  pub pdev : PciDevice
  pub dma_capable : ℕ
  pub ports : List Port

-- The ids of fscc_card_new that have a DMA engine.
unfoldable pub has_dma : ℕ → Bool
has_dma device =
    device == 0x0014
    || device == 0x0015
    || device == 0x0017
    || device == 0x0018
    || device == 0x0019
    || device == 0x001a
    || device == 0x001c
    || device == 0x001e
    || device == 0x0023
    || device == 0x0026
    || device == 0x0025
    || device == 0x0022

-- `dma_capable`, as the switch leaves it.
unfoldable pub set_dma : Env → ℕ → Trace → ℕ × Trace
set_dma e device t =
    let t1 = dma_set_mask_and_coherent ∷ t in
    if has_dma device
    then (if truthy (e.returns t dma_set_mask_and_coherent)
        then (0, t1)
        else (1, pci_set_master ∷ t1))
    else (0, t)

-- The loop over the BARs from number `i` on: can all of them be mapped?
unfoldable pub map_bars : Env → ℕ → ℕ → Trace → Bool × Trace
map_bars e i zero t = (true, t)
map_bars e i (suc left) t =
    let t1 = pci_iomap i ∷ t in
    let rest = map_bars e (i + 1) left t1 in
    if e.returns t (pci_iomap i) == 0 then (false, t1) else rest

-- The loop over the ports from channel `i` on. `raw` is the memory that a port gets. Each port goes
-- on with the calls made before it.
unfoldable pub new_ports : Env → ℕ → (ℕ → Port) → ℕ → ℕ → Trace → List Port × Trace
new_ports e dma_capable raw i zero t = ([], t)
new_ports e dma_capable raw i (suc left) t =
    let (made, port) = port_new e dma_capable i (record (raw i) { trace = t }) in
    let (ports, t1) = new_ports e dma_capable raw (i + 1) left port.trace in
    (if made then port ∷ ports else ports, t1)

-- From the second test of the DMA mask on.
unfoldable pub new_mapped : Env → PciDevice → ℕ → (ℕ → Port) → Trace → Option Card × Trace
new_mapped e pdev dma_capable raw t =
    let t1 = dma_set_mask_and_coherent ∷ t in
    if truthy (e.returns t dma_set_mask_and_coherent)
    then (none, t1)
    else (let (mapped, t2) = map_bars e 0 3 t1 in
        if mapped
        then (let (ports, t3) = new_ports e dma_capable raw 0 2 t2 in
            (some (record { pdev = pdev; dma_capable = dma_capable; ports = ports }), t3))
        else (none, t2))

unfoldable pub card_new : Env → PciDevice → (ℕ → Port) → Trace → Option Card × Trace
card_new e pdev raw t =
    let t1 = kmalloc_card ∷ t in
    if e.returns t kmalloc_card == 0
    then (none, t1)
    else (let (dma_capable, t2) = set_dma e pdev.device t1 in
        let t3 = pci_request_region 0 ∷ t2 in
        let t4 = pci_request_region 2 ∷ t3 in
        if truthy (e.returns t2 (pci_request_region 0))
        then (none, t3)
        else if truthy (e.returns t3 (pci_request_region 2))
        then (none, t4)
        else new_mapped e pdev dma_capable raw t4)

-- A loop over the ports of a card, each going on with the calls made before it.
unfoldable pub each_port : (Port → Port) → List Port → Trace → List Port × Trace
each_port f [] t = ([], t)
each_port f (port ∷ ports) t =
    let p1 = f (record port { trace = t }) in
    let (rest, t1) = each_port f ports p1.trace in (p1 ∷ rest, t1)

unfoldable pub card_delete : Env → Card → Trace → Trace
card_delete e card t =
    kfree ∷ pci_release_region 2 ∷ pci_release_region 0 ∷ (each_port (port_delete e) card.ports t).1

unfoldable pub card_suspend : Env → Card → Trace → Card × Trace
card_suspend e card t =
    let (ports, t1) = each_port (suspend e) card.ports t in (record card { ports = ports }, t1)

unfoldable pub card_resume : Env → Card → Trace → Card × Trace
card_resume e card t =
    let (ports, t1) = each_port (resume e) card.ports t in (record card { ports = ports }, t1)

unfoldable pub card_find : ℕ → List Card → Option Card
card_find pci_dev [] = none
card_find pci_dev (card ∷ cards) =
    if card.pdev.pci_dev == pci_dev then some card else card_find pci_dev cards

unfoldable pub get_name : ℕ → String
get_name device =
    if device == 0x000f || device == 0x001d
    then "FSCC PCI"
    else if device == 0x0014 || device == 0x0019
    then "SuperFSCC PCI"
    else if device == 0x0015
    then "SuperFSCC-104-LVDS PC/104+"
    else if device == 0x0016
    then "FSCC-232 PCI"
    else if device == 0x0017
    then "SuperFSCC-104 PC/104+"
    else if device == 0x0018
    then "SuperFSCC/4 PCI"
    else if device == 0x001a || device == 0x0026
    then "SuperFSCC-LVDS PCI"
    else if device == 0x001b
    then "FSCC/4 PCI"
    else if device == 0x001c || device == 0x0025
    then "SuperFSCC/4-LVDS PCI"
    else if device == 0x001e
    then "SuperFSCC/4 PCIe"
    else if device == 0x001f || device == 0x0023
    then "SuperFSCC/4 cPCI"
    else if device == 0x0027
    then "FSCC/4 PCIe"
    else if device == 0x0022
    then "SuperFSCC/4-LVDS PCIe"
    else "Unknown Device"
