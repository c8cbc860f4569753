-- ===== src/Port/Settings.antt =====
-- port.c: the settings of a port.
pub mod Choices
use fscc_linux.Prelude.{ℕ, Bool, not, ◌&&◌, ◌||◌, if◌then◌else◌, ◌==◌, bit_or}
use fscc_linux.Kernel.{Errno, einval, eopnotsupp, Ret, ok, err, truthy}
use fscc_linux.Offsets.{xf, xrep, txt, txext}
use fscc_linux.State.{Port}
use fscc_linux.Port.Access.{is_streaming}

-- `(value) ? 1 : 0`
abbrev pub flag : ℕ → ℕ
flag value = if truthy value then 1 else 0

unfoldable pub set_append_status : ℕ → Port → Ret × Port
set_append_status value p =
    if truthy value && is_streaming p
    then (err eopnotsupp, p)
    else (ok 1, record p { append_status = flag value })

unfoldable pub set_append_timestamp : ℕ → Port → Ret × Port
set_append_timestamp value p =
    if truthy value && is_streaming p
    then (err eopnotsupp, p)
    else (ok 1, record p { append_timestamp = flag value })

unfoldable pub set_ignore_timeout : ℕ → Port → Port
set_ignore_timeout value p = record p { ignore_timeout = flag value }

unfoldable pub set_rx_multiple : ℕ → Port → Port
set_rx_multiple value p = record p { rx_multiple = flag value }

unfoldable pub get_append_status : Port → ℕ
get_append_status p = if not (is_streaming p) && truthy p.append_status then 1 else 0

unfoldable pub get_append_timestamp : Port → ℕ
get_append_timestamp p = if not (is_streaming p) && truthy p.append_timestamp then 1 else 0

unfoldable pub get_ignore_timeout : Port → ℕ
get_ignore_timeout p = p.ignore_timeout

unfoldable pub get_rx_multiple : Port → ℕ
get_rx_multiple p = p.rx_multiple

unfoldable pub set_tx_modifiers : ℕ → Port → Ret × Port
set_tx_modifiers value p =
    if value == xf
      || value == bit_or xf txt
      || value == bit_or xf txext
      || value == xrep
      || value == bit_or xrep txt
    then (ok 1, record p { tx_modifiers = value })
    else (err einval, p)

unfoldable pub get_tx_modifiers : Port → ℕ
get_tx_modifiers p = p.tx_modifiers
