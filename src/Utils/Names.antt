-- ===== src/Utils/Names.antt =====
-- utils.c: the registers and the interrupts by name. `none` is the -1 of an unknown name.
use Prim.Native.String.{String}
use text.Mathlib.Text.{◌==◌ as str_eq}
use fscc_linux.Prelude.{ℕ, Option, none, some, if◌then◌else◌}
use fscc_linux.Offsets.{
  fifo_offset, bc_fifo_l_offset, fifot_offset, fifo_bc_offset, fifo_fc_offset, cmdr_offset,
  star_offset, ccr0_offset, ccr1_offset, ccr2_offset, bgr_offset, ssr_offset, smr_offset,
  tsr_offset, tmr_offset, rar_offset, ramr_offset, ppr_offset, tcr_offset, vstr_offset, isr_offset,
  imr_offset, dpllr_offset, fcr_offset,
}
use fscc_linux.Offsets.{
  rfs, rft, rfe, rfo, rdo, rfl, tin, dr_hi, dt_hi, dr_fe, dt_fe, dr_stop, dt_stop, tft, alls, tdu,
  ctss, dsrc, cdc, ctsa,
}

unfoldable pub str_to_register_offset : String → Option ℕ
str_to_register_offset str =
    if str_eq str "fifo"
    then some fifo_offset
    else if str_eq str "bcfl"
    then some bc_fifo_l_offset
    else if str_eq str "fifot"
    then some fifot_offset
    else if str_eq str "fifobc"
    then some fifo_bc_offset
    else if str_eq str "fifofc"
    then some fifo_fc_offset
    else if str_eq str "cmdr"
    then some cmdr_offset
    else if str_eq str "star"
    then some star_offset
    else if str_eq str "ccr0"
    then some ccr0_offset
    else if str_eq str "ccr1"
    then some ccr1_offset
    else if str_eq str "ccr2"
    then some ccr2_offset
    else if str_eq str "bgr"
    then some bgr_offset
    else if str_eq str "ssr"
    then some ssr_offset
    else if str_eq str "smr"
    then some smr_offset
    else if str_eq str "tsr"
    then some tsr_offset
    else if str_eq str "tmr"
    then some tmr_offset
    else if str_eq str "rar"
    then some rar_offset
    else if str_eq str "ramr"
    then some ramr_offset
    else if str_eq str "ppr"
    then some ppr_offset
    else if str_eq str "tcr"
    then some tcr_offset
    else if str_eq str "vstr"
    then some vstr_offset
    else if str_eq str "isr"
    then some isr_offset
    else if str_eq str "imr"
    then some imr_offset
    else if str_eq str "dpllr"
    then some dpllr_offset
    else if str_eq str "fstel"
    then some 0x5c
    else if str_eq str "fstew"
    then some 0x60
    else if str_eq str "fcr"
    then some fcr_offset
    else none

unfoldable pub str_to_interrupt_offset : String → Option ℕ
str_to_interrupt_offset str =
    if str_eq str "rfs"
    then some rfs
    else if str_eq str "rft"
    then some rft
    else if str_eq str "rfe"
    then some rfe
    else if str_eq str "rfo"
    then some rfo
    else if str_eq str "rdo"
    then some rdo
    else if str_eq str "rfl"
    then some rfl
    else if str_eq str "tin"
    then some tin
    else if str_eq str "dr_hi"
    then some dr_hi
    else if str_eq str "dt_hi"
    then some dt_hi
    else if str_eq str "dr_fe"
    then some dr_fe
    else if str_eq str "dt_fe"
    then some dt_fe
    else if str_eq str "dr_stop"
    then some dr_stop
    else if str_eq str "dt_stop"
    then some dt_stop
    else if str_eq str "tft"
    then some tft
    else if str_eq str "alls"
    then some alls
    else if str_eq str "tdu"
    then some tdu
    else if str_eq str "ctss"
    then some ctss
    else if str_eq str "dsrc"
    then some dsrc
    else if str_eq str "cdc"
    then some cdc
    else if str_eq str "ctsa"
    then some ctsa
    else none
