-- ===== src/Tests/Registers.antt =====
-- The theorems on registers, settings, the clock and the counters, for the sample port.
use fscc_linux.Prelude.{ℕ, ◌<◌, ◌≡◌, ◌≢◌, refl, arith, inl, List, [], ◌∷◌, get_or, drop, replicate}
use fscc_linux.Kernel.{ok, err, etimedout}
use fscc_linux.Offsets.{cmdr_offset, ccr0_offset, imr_offset}
use fscc_linux.Utils.{port_offset, is_read_only_register}
use fscc_linux.Utils.Addresses.{port_offset-disjoint}
use fscc_linux.Port.Access.{set_register, write_through, fcr_index}
use fscc_linux.Port.Access.Stall.{polled, IsBusy, set_register-stalled, set_register-command}
use fscc_linux.Port.Registers.{set_registers}
use fscc_linux.Port.Registers.Stored.{last_set, set_registers_lem}
use fscc_linux.Port.Clock.{fcr_words}
use fscc_linux.Port.Clock.Words.{All, Agrees, fcr_words-Agrees}
use fscc_linux.Tests.Sample.{reading, port, patient}

abbrev registers : List ℕ
registers = replicate 23 5

always-IsBusy : (i : ℕ) → i < 50 → IsBusy (reading 0x00040000) 0 (polled 0 i [])
always-IsBusy i h = λ z. omega arith

set_register-stalled_example :
    set_register (reading 0x00040000) 0 cmdr_offset 1 port
    ≡ (err etimedout, record port { trace = polled 0 50 [] })
set_register-stalled_example =
    set_register-stalled (reading 0x00040000) 0 1 port (omega arith) refl always-IsBusy

set_register-command_example :
    set_register (reading 0) 0 cmdr_offset 1 port
    ≡ (ok 1, write_through 0 cmdr_offset 1 (record port { trace = polled 0 1 [] }))
set_register-command_example =
    set_register-command (reading 0) 0 1 0 port (omega arith) refl (omega arith)
      (λ i h. absurd (omega arith)) (λ z. z refl)

set_registers_example :
    ((set_registers (reading 0) registers patient).0 ≡ ok 1)
    × (get_or (set_registers (reading 0) registers patient).1.register_storage 7 0 ≡ 5)
    × (get_or (set_registers (reading 0) registers patient).1.register_storage fcr_index 0
        ≡ last_set 0 (drop fcr_index registers))
unfolding is_read_only_register
set_registers_example =
    set_registers_lem (reading 0) registers patient 7 (omega arith) refl (omega arith) (omega arith)

port_offset-disjoint_example : port_offset 0 0 ccr0_offset ≢ port_offset 1 0 imr_offset
port_offset-disjoint_example =
    port_offset-disjoint 0 ccr0_offset imr_offset (inl (refl, omega arith))
      (inl (refl, omega arith))

fcr_words_example : All (Agrees 0xabcd) (fcr_words 1 0xabcd (1 ∷ 2 ∷ []))
fcr_words_example = fcr_words-Agrees 1 0xabcd (1 ∷ 2 ∷ [])
