-- ===== src/Sysfs/Settings.antt =====
-- sysfs.c and fscc_ioctl: two ways to the settings and the purges.
use Prim.Native.String.{String}
use fscc_linux.Prelude.{ℕ, ◌≡◌, refl, arith, if◌then◌else◌}
use fscc_linux.Kernel.{Env, u32, truthy, ok}
use fscc_linux.State.{Port}
use fscc_linux.Port.Settings.{
  set_append_status, set_append_timestamp, set_ignore_timeout, set_rx_multiple, set_tx_modifiers,
}
use fscc_linux.Io.Purge as Io
use fscc_linux.File.Ioctl.{
  Command, number, ioctl, fscc_purge_tx, fscc_purge_rx, fscc_enable_append_status,
  fscc_disable_append_status, fscc_get_append_status, fscc_enable_append_timestamp,
  fscc_disable_append_timestamp, fscc_get_append_timestamp, fscc_enable_ignore_timeout,
  fscc_disable_ignore_timeout, fscc_get_ignore_timeout, fscc_set_tx_modifiers,
  fscc_get_tx_modifiers, fscc_enable_rx_multiple, fscc_disable_rx_multiple, fscc_get_rx_multiple,
}
use fscc_linux.Sysfs.{
  Strtoul, Show, Store, decimal, purge_tx, purge_rx, tx_modifiers_store, tx_modifiers_show,
  ignore_timeout_store, ignore_timeout_show, rx_multiple_store, rx_multiple_show,
  append_status_store, append_status_show, append_timestamp_store, append_timestamp_show,
}

-- Writing to the attribute does to the port what the command does, and returns the length.
abbrev pub StoresAs : Store → (ℕ → Command) → Type 0
StoresAs store command =
    (simple_strtoul : Strtoul) (e : Env) (buf : String) (count : ℕ) (p : Port)
    → store simple_strtoul e buf count p
      ≡ (count, (ioctl e (command (u32 (simple_strtoul buf 16))) p).2)

-- Reading the attribute prints the number that the command answers with.
abbrev pub ShowsAs : Show → Command → Type 0
ShowsAs show command =
    (e : Env) (p : Port)
    → (n : ℕ) × (ioctl e command p ≡ (ok 0, number n, p)) × (show e p ≡ (decimal n, p))

abbrev pub switch : Command → Command → ℕ → Command
switch on off value = if truthy value then on else off

append_status-StoresAs :
    StoresAs append_status_store (switch fscc_enable_append_status fscc_disable_append_status)
unfolding append_status_store ioctl set_append_status
append_status-StoresAs strtoul e buf count p = ground arith

append_timestamp-StoresAs :
    StoresAs append_timestamp_store
      (switch fscc_enable_append_timestamp fscc_disable_append_timestamp)
unfolding append_timestamp_store ioctl set_append_timestamp
append_timestamp-StoresAs strtoul e buf count p = ground arith

ignore_timeout-StoresAs :
    StoresAs ignore_timeout_store (switch fscc_enable_ignore_timeout fscc_disable_ignore_timeout)
unfolding ignore_timeout_store ioctl set_ignore_timeout
ignore_timeout-StoresAs strtoul e buf count p = ground arith

rx_multiple-StoresAs :
    StoresAs rx_multiple_store (switch fscc_enable_rx_multiple fscc_disable_rx_multiple)
unfolding rx_multiple_store ioctl set_rx_multiple
rx_multiple-StoresAs strtoul e buf count p = ground arith

tx_modifiers-StoresAs : StoresAs tx_modifiers_store fscc_set_tx_modifiers
unfolding tx_modifiers_store ioctl set_tx_modifiers
tx_modifiers-StoresAs strtoul e buf count p = ground arith

purge_tx-StoresAs : StoresAs purge_tx (λ n. fscc_purge_tx)
unfolding purge_tx ioctl Io.purge_tx
purge_tx-StoresAs strtoul e buf count p = refl

purge_rx-StoresAs : StoresAs purge_rx (λ n. fscc_purge_rx)
unfolding purge_rx ioctl Io.purge_rx
purge_rx-StoresAs strtoul e buf count p = refl

-- A write of a number to an attribute of a setting, or of anything to one of a purge, changes the
-- port just as the ioctl for it does, which for the four switches is the one that enables it if
-- the number is not zero modulo 2 ^ 32 and else the one that disables it; it returns the length of what was written,
-- whatever the ioctl returns. A read prints the number that the ioctl that gets the setting
-- answers with.
pub attributes_lem :
    StoresAs append_status_store (switch fscc_enable_append_status fscc_disable_append_status)
    × StoresAs append_timestamp_store
        (switch fscc_enable_append_timestamp fscc_disable_append_timestamp)
    × StoresAs ignore_timeout_store (switch fscc_enable_ignore_timeout fscc_disable_ignore_timeout)
    × StoresAs rx_multiple_store (switch fscc_enable_rx_multiple fscc_disable_rx_multiple)
    × StoresAs tx_modifiers_store fscc_set_tx_modifiers
    × StoresAs purge_tx (λ n. fscc_purge_tx)
    × StoresAs purge_rx (λ n. fscc_purge_rx)
    × ShowsAs append_status_show fscc_get_append_status
    × ShowsAs append_timestamp_show fscc_get_append_timestamp
    × ShowsAs ignore_timeout_show fscc_get_ignore_timeout
    × ShowsAs rx_multiple_show fscc_get_rx_multiple
    × ShowsAs tx_modifiers_show fscc_get_tx_modifiers
unfolding ioctl append_status_show append_timestamp_show ignore_timeout_show rx_multiple_show
    tx_modifiers_show
attributes_lem = (
  append_status-StoresAs,
  append_timestamp-StoresAs,
  ignore_timeout-StoresAs,
  rx_multiple-StoresAs,
  tx_modifiers-StoresAs,
  purge_tx-StoresAs,
  purge_rx-StoresAs,
  λ e p. (_, refl, refl),
  λ e p. (_, refl, refl),
  λ e p. (_, refl, refl),
  λ e p. (_, refl, refl),
  λ e p. (_, refl, refl),
)
