-- ===== src/Tests/Driver.antt =====
-- The theorems on the sysfs attributes and on the entry of the module, at concrete inputs.
use fscc_linux.Prelude.{ℕ, ◌≤◌, replicate, ◌≡◌, refl, arith, [], ◌∷◌, All, ◌⊎◌, ◌<◌}
use fscc_linux.Utils.{port_offset}
use fscc_linux.Kernel.{ok, err, etimedout, write32}
use fscc_linux.Port.Access.Stall.{set_register-ends, polled}
use fscc_linux.Sysfs.{register_store}
use fscc_linux.Sysfs.Registers.{only, register_store_lem}
use fscc_linux.Sysfs.Counts.{bits, names, Counts, debug_attrs-Counts}
use fscc_linux.Sysfs.{debug_attrs}
use fscc_linux.Tests.Sample.{reading, port, answer}
use fscc_linux.Utils.{str_to_register_offset, is_read_only_register, is_fscc_device}
use fscc_linux.Driver.{init, find_cards, load_cards}
use fscc_linux.Driver.Entry.{registered, none_registered, init-registered}
use fscc_linux.Sysfs.{Strtoul}
use fscc_linux.Port.Access.{set_register}
use fscc_linux.Port.Registers.{set_registers}

-- Every text reads as 0x7e.
abbrev strtoul : Strtoul
strtoul text base = 0x7e

register_store_lem_example :
    register_store "ssr" 0 strtoul (reading 0) "7e" 2 port
    ≡ (2, (set_registers (reading 0) (only 11 0x7e) port).1)
unfolding str_to_register_offset is_read_only_register
register_store_lem_example =
    register_store_lem "ssr" 11 strtoul (reading 0) "7e" 2 port refl refl (omega arith)

debug_attrs-Counts_example : (names bits ≡ debug_attrs) × All (Counts (replicate 32 0) 5) bits
debug_attrs-Counts_example = debug_attrs-Counts (replicate 32 0) 5 refl

-- One device that is not the driver's.
init-registered_example :
    registered
      (reading 0)
      (init (reading 0) (λ pdev i. port) (record { pci_dev = 1; device = 0x1f } ∷ []) []).2
    ≡ none_registered
unfolding registered init find_cards load_cards is_fscc_device answer
init-registered_example =
    init-registered (reading 0) (λ pdev i. port) (record { pci_dev = 1; device = 0x1f } ∷ []) []
      refl refl

set_register-ends_example :
    (let (result, q) = set_register (reading 0x00040000) 0 0x14 1 port in
      (n : ℕ) × (n ≤ 50)
      × (((result ≡ ok 1)
            × (q.trace
                ≡ write32 0 (port_offset port.channel 0 0x14) 1 ∷ polled port.channel n port.trace))
          ⊎ (((result ≡ err etimedout) × (n ≡ 50) × (q.trace ≡ polled port.channel n port.trace))
              ⊎ ((result ≡ ok 0) × (2 < 0) × (q.trace ≡ port.trace)))))
set_register-ends_example = set_register-ends (reading 0x00040000) 0 0x14 1 port
