-- ===== src/File/Ioctl.antt =====
-- main.c: fscc_ioctl. The copies of the argument from and to user space are taken to move all of
-- it: the code does not look at their results.
use fscc_linux.Prelude.{ℕ, List}
use fscc_linux.Kernel.{Env, enotty, Ret, ok, err, spin_lock, spin_unlock, settings_lock, u32}
use fscc_linux.State.{Port, emit}
use fscc_linux.Port.Settings.{
  set_append_status, get_append_status, set_append_timestamp, get_append_timestamp,
  set_ignore_timeout, get_ignore_timeout, set_rx_multiple, get_rx_multiple, set_tx_modifiers,
  get_tx_modifiers,
}
use fscc_linux.Port.Registers.{get_registers, set_registers}
use fscc_linux.Port.Clock.{set_clock_bits}
use fscc_linux.Io.Purge.{purge_rx, purge_tx}

-- The commands of fscc.h, with what `arg` points to.
pub data Command : Type 0 where
  fscc_get_registers : List ℕ → Command
  fscc_set_registers : List ℕ → Command
  fscc_purge_tx fscc_purge_rx : Command
  fscc_enable_append_status fscc_disable_append_status fscc_get_append_status : Command
  fscc_enable_append_timestamp fscc_disable_append_timestamp fscc_get_append_timestamp : Command
  fscc_set_clock_bits : List ℕ → Command
  fscc_enable_ignore_timeout fscc_disable_ignore_timeout fscc_get_ignore_timeout : Command
  fscc_set_tx_modifiers : ℕ → Command
  fscc_get_tx_modifiers : Command
  fscc_enable_rx_multiple fscc_disable_rx_multiple fscc_get_rx_multiple : Command
  unknown : Command

-- What is copied to the user.
pub data Answer : Type 0 where
  nothing : Answer
  number : ℕ → Answer
  registers : List ℕ → Answer

-- `if ((error_code = …) < 0) return error_code;`
abbrev pub checked : Ret × Port → Ret × Answer × Port
checked (err x, p) = (err x, nothing, p)
checked (ok n, p) = (ok 0, nothing, p)

abbrev done : Port → Ret × Answer × Port
done p = (ok 0, nothing, p)

abbrev answer : ℕ → Port → Ret × Answer × Port
answer n p = (ok 0, number n, p)

unfoldable pub ioctl : Env → Command → Port → Ret × Answer × Port
ioctl e (fscc_get_registers regs) p =
    let (got, p1) = get_registers e regs (emit (spin_lock settings_lock) p) in
    (ok 0, registers got, emit (spin_unlock settings_lock) p1)
ioctl e (fscc_set_registers regs) p =
    let (r, p1) = set_registers e regs (emit (spin_lock settings_lock) p) in
    done (emit (spin_unlock settings_lock) p1)
ioctl e fscc_purge_tx p = checked (purge_tx e p)
ioctl e fscc_purge_rx p = checked (purge_rx e p)
ioctl e fscc_enable_append_status p = checked (set_append_status 1 p)
ioctl e fscc_disable_append_status p = done (set_append_status 0 p).1
ioctl e fscc_get_append_status p = answer (get_append_status p) p
ioctl e fscc_enable_append_timestamp p = checked (set_append_timestamp 1 p)
ioctl e fscc_disable_append_timestamp p = done (set_append_timestamp 0 p).1
ioctl e fscc_get_append_timestamp p = answer (get_append_timestamp p) p
ioctl e (fscc_set_clock_bits clock_data) p = done (set_clock_bits e clock_data p)
ioctl e fscc_enable_ignore_timeout p = done (set_ignore_timeout 1 p)
ioctl e fscc_disable_ignore_timeout p = done (set_ignore_timeout 0 p)
ioctl e fscc_get_ignore_timeout p = answer (get_ignore_timeout p) p
ioctl e (fscc_set_tx_modifiers arg) p = checked (set_tx_modifiers (u32 arg) p)
ioctl e fscc_get_tx_modifiers p = answer (get_tx_modifiers p) p
ioctl e fscc_enable_rx_multiple p = done (set_rx_multiple 1 p)
ioctl e fscc_disable_rx_multiple p = done (set_rx_multiple 0 p)
ioctl e fscc_get_rx_multiple p = answer (get_rx_multiple p) p
ioctl e unknown p = (err enotty, nothing, p)
