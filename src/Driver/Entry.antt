-- ===== src/Driver/Entry.antt =====
-- main.c: what of fscc_init's registrations stays when it fails.
use fscc_linux.Prelude.{
  ℕ, ◌+◌, ◌≤◌, ◌≡◌, refl, arith, inl, inr, List, [], ◌∷◌, Bool, true, false, Bool-cases, not,
}
use fscc_linux.Kernel.{
  Env, eio, Trace, class_create, class_destroy, register_chrdev, unregister_chrdev,
  pci_register_driver, pci_unregister_driver, pci_enable_device, truthy, below_zero, is_err,
}
use fscc_linux.State.{Port}
use fscc_linux.Utils.{is_fscc_device}
use fscc_linux.Card.Life.{PciDevice, Card, card_new}
use fscc_linux.Driver.{Loaded, loaded, failed, add_card, load_cards, find_cards, init}

-- Which of the class, the character device and the PCI driver are registered.
pub record Registered : Type 0 where
  pub class : Bool
  pub chrdev : Bool
  pub driver : Bool

abbrev pub none_registered : Registered
none_registered = record { class = false; chrdev = false; driver = false }

-- What the calls so far have registered and not undone.
unfoldable pub registered : Env → Trace → Registered
registered e [] = none_registered
registered e (class_create ∷ t) = record (registered e t) {
  class = not (is_err (e.returns t class_create));
}
registered e (class_destroy ∷ t) = record (registered e t) { class = false }
registered e (register_chrdev ∷ t) = record (registered e t) {
  chrdev = not (below_zero (e.returns t register_chrdev));
}
registered e (unregister_chrdev ∷ t) = record (registered e t) { chrdev = false }
registered e (pci_register_driver ∷ t) = record (registered e t) {
  driver = not (below_zero (e.returns t pci_register_driver));
}
registered e (pci_unregister_driver ∷ t) = record (registered e t) { driver = false }
registered e (_ ∷ t) = registered e t

-- fscc_init has not failed, or with EIO.
abbrev pub stays : Loaded → Bool
stays loaded = true
stays (failed eio) = true
stays _ = false

-- The number of devices only grows, and while it is zero nothing is called.
load_cards_lem :
    (e : Env) (raw : ℕ → ℕ → Port) (pdevs : List PciDevice) (n : ℕ) (cards : List Card) (t : Trace)
    → (n ≤ (load_cards e raw pdevs n cards t).1)
      × ((load_cards e raw pdevs n cards t).1 ≡ 0 → (load_cards e raw pdevs n cards t).3 ≡ t)
unfolding load_cards
load_cards_lem e raw [] n cards t = (omega arith, λ z. refl)
load_cards_lem e raw (pdev ∷ pdevs) n cards t =
    let made = card_new e pdev (raw pdev.pci_dev) (pci_enable_device pdev.pci_dev ∷ t) in
    let rest = load_cards_lem e raw pdevs (n + 1) (add_card made.0 cards) made.1 in
    let skipped = load_cards_lem e raw pdevs n cards t in
    elim (Bool-cases (is_fscc_device pdev.device)) [
      | inr other ↦ rw other skipped
      | inl ours ↦
          rw ours (elim (Bool-cases (truthy (e.returns t (pci_enable_device pdev.pci_dev)))) [
            | inl broken ↦ rw broken (omega arith, λ z. absurd (omega (arith, z)))
            | inr enabled ↦
                rw enabled (omega (arith, rest.0), λ z. absurd (omega (arith, rest.0, z)))
          ])
    ]

find_cards_lem :
    (e : Env) (raw : ℕ → ℕ → Port) (pdevs : List PciDevice) (t : Trace)
    → stays (find_cards e raw pdevs t).0 ≡ false
    → (find_cards e raw pdevs t).2 ≡ class_destroy ∷ unregister_chrdev ∷ pci_unregister_driver ∷ t
unfolding find_cards
find_cards_lem e raw pdevs t fails = ground (arith, load_cards_lem e raw pdevs 0 [] t)

-- When fscc_init, started with nothing registered, fails with anything but EIO, it leaves neither
-- the class nor the character device nor the PCI driver registered.
pub init-registered :
    (e : Env) (raw : ℕ → ℕ → Port) (pdevs : List PciDevice) (t : Trace)
    → registered e t ≡ none_registered
    → stays (init e raw pdevs t).0 ≡ false
    → registered e (init e raw pdevs t).2 ≡ none_registered
unfolding init registered
init-registered e raw pdevs t clean fails = ground (
  arith,
  clean,
  fails,
  find_cards_lem e raw pdevs (pci_register_driver ∷ register_chrdev ∷ class_create ∷ t),
)
