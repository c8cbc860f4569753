-- ===== src/Driver.antt =====
-- main.c: the module's entry and exit, and what the PCI core calls. The devices that
-- pci_get_device gives are a parameter: those of the vendor, in order. The list of cards is passed
-- on from call to call.
pub mod Devices
pub mod Entry
use fscc_linux.Prelude.{
  ℕ, ◌+◌, Option, none, some, List, [], ◌∷◌, ◌++◌, Bool, true, false, if◌then◌else◌, ◌==◌,
}
use fscc_linux.Kernel.{
  Env, Errno, eio, enodev, Trace, class_create, class_destroy, register_chrdev, unregister_chrdev,
  pci_register_driver, pci_unregister_driver, pci_enable_device, pci_disable_device, pci_save_state,
  pci_restore_state, pci_set_power_state, truthy, below_zero, is_err,
}
use fscc_linux.State.{Port}
use fscc_linux.Utils.{is_fscc_device}
use fscc_linux.Card.Life.{
  PciDevice, Card, card_new, card_delete, card_suspend, card_resume, card_find,
}

-- The device ids of the table; the entry of zeros ends it.
unfoldable pub fscc_id_table : List ℕ
fscc_id_table =
    0x000f ∷ 0x0014 ∷ 0x0015 ∷ 0x0016 ∷ 0x0017 ∷ 0x0018 ∷ 0x0019 ∷ 0x001a ∷ 0x001b ∷ 0x001c ∷ 0x001d
    ∷ 0x001e ∷ 0x0023 ∷ 0x0025 ∷ 0x0026 ∷ 0x0027 ∷ 0x0022 ∷ []

-- What fscc_init returns: 0, the result of a call, or an errno of its own.
pub data Loaded : Type 0 where
  loaded : Loaded
  refused : ℕ → Loaded
  failed : Errno → Loaded

-- `list_add_tail`, if there is a card.
unfoldable pub add_card : Option Card → List Card → List Card
add_card none cards = cards
add_card (some card) cards = cards ++ card ∷ []

-- The loop over the devices: did it get to the end, the number of the driver's devices, the cards,
-- and the calls.
unfoldable pub load_cards :
    Env → (ℕ → ℕ → Port) → List PciDevice → ℕ → List Card → Trace → Bool × ℕ × List Card × Trace
load_cards e raw [] num_devices cards t = (true, num_devices, cards, t)
load_cards e raw (pdev ∷ pdevs) num_devices cards t =
    let t1 = pci_enable_device pdev.pci_dev ∷ t in
    let (new_card, t2) = card_new e pdev (raw pdev.pci_dev) t1 in
    let skipped = load_cards e raw pdevs num_devices cards t in
    let rest = load_cards e raw pdevs (num_devices + 1) (add_card new_card cards) t2 in
    if is_fscc_device pdev.device
    then (if truthy (e.returns t (pci_enable_device pdev.pci_dev))
        then (false, num_devices + 1, cards, t1)
        else rest)
    else skipped

-- From a registered driver on.
unfoldable pub find_cards :
    Env → (ℕ → ℕ → Port) → List PciDevice → Trace → Loaded × List Card × Trace
find_cards e raw pdevs t =
    let (ended, num_devices, cards, t1) = load_cards e raw pdevs 0 [] t in
    if ended
    then (if num_devices == 0
        then (failed enodev, cards, class_destroy ∷ unregister_chrdev ∷ pci_unregister_driver ∷ t1)
        else (loaded, cards, t1))
    else (failed eio, cards, t1)

unfoldable pub init : Env → (ℕ → ℕ → Port) → List PciDevice → Trace → Loaded × List Card × Trace
init e raw pdevs t =
    let t1 = class_create ∷ t in
    let t2 = register_chrdev ∷ t1 in
    let t3 = pci_register_driver ∷ t2 in
    let fscc_class = e.returns t class_create in
    let fscc_major_number = e.returns t1 register_chrdev in
    let error_code = e.returns t2 pci_register_driver in
    if is_err fscc_class
    then (refused fscc_class, [], t1)
    else if below_zero fscc_major_number
    then (refused fscc_major_number, [], class_destroy ∷ t2)
    else if below_zero error_code
    then (refused error_code, [], class_destroy ∷ unregister_chrdev ∷ t3)
    else if error_code == 0
    then find_cards e raw pdevs t3
    else (loaded, [], t3)

unfoldable pub delete_cards : Env → List Card → Trace → Trace
delete_cards e [] t = t
delete_cards e (card ∷ cards) t = delete_cards e cards (card_delete e card t)

unfoldable pub exit : Env → List Card → Trace → Trace
exit e cards t = class_destroy ∷ unregister_chrdev ∷ pci_unregister_driver ∷ delete_cards e cards t

-- `list_del`: the first card of the device goes.
unfoldable pub unlist : ℕ → List Card → List Card
unlist pci_dev [] = []
unlist pci_dev (card ∷ cards) =
    if card.pdev.pci_dev == pci_dev then cards else card ∷ unlist pci_dev cards

unfoldable pub remove : Env → ℕ → List Card → Trace → List Card × Trace
remove e pci_dev cards t = elim (card_find pci_dev cards) [
  | none ↦ (cards, t)
  | some card ↦ (unlist pci_dev cards, pci_disable_device pci_dev ∷ card_delete e card t)
]

-- The card in the list changes in place.
unfoldable pub relist : ℕ → Card → List Card → List Card
relist pci_dev new_card [] = []
relist pci_dev new_card (card ∷ cards) =
    if card.pdev.pci_dev == pci_dev then new_card ∷ cards else card ∷ relist pci_dev new_card cards

-- fscc_suspend and fscc_resume of a device with a card; for one without, the code's first
-- dev_dbg takes the address of a member of a null pointer.
unfoldable pub suspend_device : Env → ℕ → Card → List Card → Trace → List Card × Trace
suspend_device e pci_dev card cards t =
    let (card1, t1) = card_suspend e card t in
    (relist pci_dev card1 cards, pci_set_power_state pci_dev ∷ pci_save_state pci_dev ∷ t1)

unfoldable pub resume_device : Env → ℕ → Card → List Card → Trace → List Card × Trace
resume_device e pci_dev card cards t =
    let (card1, t1) =
      card_resume e card (pci_restore_state pci_dev ∷ pci_set_power_state pci_dev ∷ t) in
    (relist pci_dev card1 cards, t1)
