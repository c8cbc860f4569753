-- ===== src/Sysfs.antt =====
-- sysfs.c: the attributes of a port. `dev_get_drvdata` gives the port, and of `struct
-- kobj_attribute` the name is used. simple_strtoul is a parameter: the number that a text is read
-- as in a base. What sprintf prints is kept as its format and its argument.
pub mod Registers
pub mod Settings
pub mod Counts
use Prim.Native.String.{String}
use fscc_linux.Prelude.{ℕ, Option, none, some, List, [], ◌∷◌, ◌++◌, Bool, if◌then◌else◌}
use fscc_linux.Kernel.{Env, u32}
use fscc_linux.State.{Port}
use fscc_linux.Utils.{str_to_register_offset, str_to_interrupt_offset}
use fscc_linux.Port.Access.{get_register, set_register}
use fscc_linux.Port.Settings.{
  set_append_status, set_append_timestamp, set_ignore_timeout, set_rx_multiple, set_tx_modifiers,
  get_append_status, get_append_timestamp, get_ignore_timeout, get_rx_multiple, get_tx_modifiers,
}
use fscc_linux.Io.Purge as Io
use fscc_linux.Debug.{Tracker, get_interrupt_count}

-- "%08x\n", "%i\n", or nothing at all.
pub data Printed : Type 0 where
  nothing : Printed
  hex : ℕ → Printed
  decimal : ℕ → Printed

abbrev pub Strtoul : Type 0
Strtoul = String → ℕ → ℕ

abbrev pub Show : Type 0
Show = Env → Port → Printed × Port

-- What is written, and its length.
abbrev pub Store : Type 0
Store = Strtoul → Env → String → ℕ → Port → ℕ × Port

pub data Mode : Type 0 where
  read_write read_only write_only : Mode

-- struct kobj_attribute, with the handlers applied to the attribute that they are of.
pub record Attribute : Type 0 where
  pub name : String
  pub mode : Mode
  pub show : Option Show
  pub store : Option Store

unfoldable pub register_store : String → ℕ → Store
register_store name bar_number simple_strtoul e buf count p = elim (str_to_register_offset name) [
  | some register_offset ↦
      (count, (set_register e bar_number register_offset (u32 (simple_strtoul buf 16)) p).1)
  | none ↦ (0, p)
]

unfoldable pub register_show : String → ℕ → Show
register_show name bar_number e p = elim (str_to_register_offset name) [
  | some register_offset ↦
      (let (value, p1) = get_register e bar_number register_offset p in (hex value, p1))
  | none ↦ (nothing, p)
]

-- An attribute of the group of registers.
abbrev register_attribute : String → Mode → ℕ → Attribute
register_attribute name mode bar_number = record {
  name = name;
  mode = mode;
  show = some (register_show name bar_number);
  store = some (register_store name bar_number);
}

-- One that has no store function.
abbrev shown_attribute : String → ℕ → Attribute
shown_attribute name bar_number = record {
  name = name;
  mode = read_only;
  show = some (register_show name bar_number);
  store = none;
}

-- The three that a DEBUG build adds.
unfoldable pub debug_register_attrs : List Attribute
debug_register_attrs =
    register_attribute "bcfl" read_only 0
    ∷ register_attribute "fifobc" read_only 0
    ∷ register_attribute "fifofc" read_only 0
    ∷ []

unfoldable pub register_attrs : List Attribute
register_attrs =
    register_attribute "fifot" read_write 0
    ∷ register_attribute "cmdr" read_write 0
    ∷ register_attribute "ccr0" read_write 0
    ∷ register_attribute "ccr1" read_write 0
    ∷ register_attribute "ccr2" read_write 0
    ∷ register_attribute "bgr" read_write 0
    ∷ register_attribute "ssr" read_write 0
    ∷ register_attribute "smr" read_write 0
    ∷ register_attribute "tsr" read_write 0
    ∷ register_attribute "tmr" read_write 0
    ∷ register_attribute "rar" read_write 0
    ∷ register_attribute "ramr" read_write 0
    ∷ register_attribute "ppr" read_write 0
    ∷ register_attribute "tcr" read_write 0
    ∷ shown_attribute "vstr" 0
    ∷ shown_attribute "star" 0
    ∷ register_attribute "imr" read_write 0
    ∷ register_attribute "dpllr" read_write 0
    ∷ register_attribute "fstel" read_write 0
    ∷ register_attribute "fstew" read_write 0
    ∷ register_attribute "fcr" read_write 2
    ∷ []

-- The group "registers".
unfoldable pub port_registers : Bool → List Attribute
port_registers debug = if debug then debug_register_attrs ++ register_attrs else register_attrs

unfoldable pub purge_tx : Store
purge_tx simple_strtoul e buf count p = (count, (Io.purge_tx e p).1)

unfoldable pub purge_rx : Store
purge_rx simple_strtoul e buf count p = (count, (Io.purge_rx e p).1)

-- The group "commands".
unfoldable pub command_attrs : List Attribute
command_attrs =
    record { name = "purge_tx"; mode = write_only; show = none; store = some purge_tx }
    ∷ record { name = "purge_rx"; mode = write_only; show = none; store = some purge_rx }
    ∷ []

unfoldable pub tx_modifiers_store : Store
tx_modifiers_store simple_strtoul e buf count p =
    (count, (set_tx_modifiers (u32 (simple_strtoul buf 16)) p).1)

unfoldable pub tx_modifiers_show : Show
tx_modifiers_show e p = (decimal (get_tx_modifiers p), p)

unfoldable pub ignore_timeout_store : Store
ignore_timeout_store simple_strtoul e buf count p =
    (count, set_ignore_timeout (u32 (simple_strtoul buf 16)) p)

unfoldable pub ignore_timeout_show : Show
ignore_timeout_show e p = (decimal (get_ignore_timeout p), p)

unfoldable pub rx_multiple_store : Store
rx_multiple_store simple_strtoul e buf count p =
    (count, set_rx_multiple (u32 (simple_strtoul buf 16)) p)

unfoldable pub rx_multiple_show : Show
rx_multiple_show e p = (decimal (get_rx_multiple p), p)

unfoldable pub append_status_store : Store
append_status_store simple_strtoul e buf count p =
    (count, (set_append_status (u32 (simple_strtoul buf 16)) p).1)

unfoldable pub append_status_show : Show
append_status_show e p = (decimal (get_append_status p), p)

unfoldable pub append_timestamp_store : Store
append_timestamp_store simple_strtoul e buf count p =
    (count, (set_append_timestamp (u32 (simple_strtoul buf 16)) p).1)

unfoldable pub append_timestamp_show : Show
append_timestamp_show e p = (decimal (get_append_timestamp p), p)

abbrev setting : String → Show → Store → Attribute
setting name show store = record {
  name = name;
  mode = read_write;
  show = some show;
  store = some store;
}

-- The group "settings".
unfoldable pub settings_attrs : List Attribute
settings_attrs =
    setting "append_status" append_status_show append_status_store
    ∷ setting "append_timestamp" append_timestamp_show append_timestamp_store
    ∷ setting "ignore_timeout" ignore_timeout_show ignore_timeout_store
    ∷ setting "rx_multiple" rx_multiple_show rx_multiple_store
    ∷ setting "tx_modifiers" tx_modifiers_show tx_modifiers_store
    ∷ []

-- The group "debug" of a DEBUG build has one attribute for each of these names, which only shows
-- how often the interrupt came.
unfoldable pub interrupt_count : String → Tracker → Printed
interrupt_count name tracker = elim (str_to_interrupt_offset name) [
  | some interrupt_offset ↦ decimal (get_interrupt_count tracker interrupt_offset)
  | none ↦ nothing
]

unfoldable pub debug_attrs : List String
debug_attrs =
    "rfs" ∷ "rft" ∷ "rfe" ∷ "rfo" ∷ "rdo" ∷ "rfl" ∷ "tin" ∷ "dr_hi" ∷ "dt_hi" ∷ "dr_fe" ∷ "dt_fe"
    ∷ "dr_stop" ∷ "dt_stop" ∷ "tft" ∷ "alls" ∷ "tdu" ∷ "ctss" ∷ "dsrc" ∷ "cdc" ∷ "ctsa" ∷ []
