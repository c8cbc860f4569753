-- ===== src/Port/Settings/Choices.antt =====
-- port.c: which settings are accepted, and what is left as it was.
use fscc_linux.Prelude.{refl, ℕ, ◌≡◌, ◌⊎◌, arith, if◌then◌else◌, ◌==◌, ◌&&◌, ◌||◌}
use fscc_linux.Kernel.{truthy, einval, eopnotsupp, ok, err}
use fscc_linux.State.{Port}
use fscc_linux.Port.Access.{is_streaming}
use fscc_linux.Port.Settings.{
  set_append_status, set_append_timestamp, get_append_status, get_append_timestamp,
  set_tx_modifiers, get_tx_modifiers,
}

-- The modifiers that fscc.h allows: XF, TXT, TXEXT, XREP, and XREP with TXT.
abbrev pub IsModifier : ℕ → Type 0
IsModifier v = (v ≡ 0) ⊎ (v ≡ 2) ⊎ (v ≡ 4) ⊎ (v ≡ 1) ⊎ (v ≡ 3)

-- A set of transmit modifiers is accepted exactly if it is one of the five allowed ones, and is then what
-- fscc_port_get_tx_modifiers returns; any other is refused with EINVAL and changes nothing.
pub set_tx_modifiers_lem :
    (v : ℕ) (p : Port)
    → (IsModifier v
        × (set_tx_modifiers v p ≡ (ok 1, record p { tx_modifiers = v }))
        × (get_tx_modifiers (set_tx_modifiers v p).1 ≡ v))
      ⊎ ((¬ IsModifier v) × (set_tx_modifiers v p ≡ (err einval, p)))
unfolding set_tx_modifiers get_tx_modifiers
set_tx_modifiers_lem v p = ground arith

streaming-append_status :
    (v : ℕ) (p : Port) → is_streaming (record p { append_status = v }) ≡ is_streaming p
unfolding is_streaming
streaming-append_status v p = refl

streaming-append_timestamp :
    (v : ℕ) (p : Port) → is_streaming (record p { append_timestamp = v }) ≡ is_streaming p
unfolding is_streaming
streaming-append_timestamp v p = refl

-- Appending is refused with EOPNOTSUPP exactly in a streaming mode, and only when it is switched on;
-- what is read back afterwards is 0 in a streaming mode, and otherwise whether the last value set
-- was not 0. The same holds for the status and for the time stamp.
pub append_lem :
    (v : ℕ) (p : Port)
    → ((set_append_status v p).0 ≡ (if is_streaming p && truthy v then err eopnotsupp else ok 1))
      × ((set_append_timestamp v p).0
          ≡ (if is_streaming p && truthy v then err eopnotsupp else ok 1))
      × (get_append_status (set_append_status v p).1 ≡ (if is_streaming p || v == 0 then 0 else 1))
      × (get_append_timestamp (set_append_timestamp v p).1
          ≡ (if is_streaming p || v == 0 then 0 else 1))
unfolding set_append_status set_append_timestamp get_append_status get_append_timestamp
append_lem v p = ground (
  arith,
  streaming-append_status 0 p,
  streaming-append_status 1 p,
  streaming-append_timestamp 0 p,
  streaming-append_timestamp 1 p,
)
