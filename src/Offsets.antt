-- ===== src/Offsets.antt =====
-- The register offsets and interrupt bits of port.h and card.h, and the control bits of io.h.
use fscc_linux.Prelude.{ℕ}

abbrev pub fifo_offset : ℕ
fifo_offset = 0x00

abbrev pub bc_fifo_l_offset : ℕ
bc_fifo_l_offset = 0x04

abbrev pub fifot_offset : ℕ
fifot_offset = 0x08

abbrev pub fifo_bc_offset : ℕ
fifo_bc_offset = 0x0C

abbrev pub fifo_fc_offset : ℕ
fifo_fc_offset = 0x10

abbrev pub cmdr_offset : ℕ
cmdr_offset = 0x14

abbrev pub star_offset : ℕ
star_offset = 0x18

abbrev pub ccr0_offset : ℕ
ccr0_offset = 0x1C

abbrev pub ccr1_offset : ℕ
ccr1_offset = 0x20

abbrev pub ccr2_offset : ℕ
ccr2_offset = 0x24

abbrev pub bgr_offset : ℕ
bgr_offset = 0x28

abbrev pub ssr_offset : ℕ
ssr_offset = 0x2C

abbrev pub smr_offset : ℕ
smr_offset = 0x30

abbrev pub tsr_offset : ℕ
tsr_offset = 0x34

abbrev pub tmr_offset : ℕ
tmr_offset = 0x38

abbrev pub rar_offset : ℕ
rar_offset = 0x3C

abbrev pub ramr_offset : ℕ
ramr_offset = 0x40

abbrev pub ppr_offset : ℕ
ppr_offset = 0x44

abbrev pub tcr_offset : ℕ
tcr_offset = 0x48

abbrev pub vstr_offset : ℕ
vstr_offset = 0x4C

abbrev pub isr_offset : ℕ
isr_offset = 0x50

abbrev pub imr_offset : ℕ
imr_offset = 0x54

abbrev pub dpllr_offset : ℕ
dpllr_offset = 0x58

abbrev pub max_offset : ℕ
max_offset = 0x58

abbrev pub dmaccr_offset : ℕ
dmaccr_offset = 0x04

abbrev pub drdb_offset : ℕ
drdb_offset = 0x0c

abbrev pub dtdb_offset : ℕ
dtdb_offset = 0x10

abbrev pub dcrdb_offset : ℕ
dcrdb_offset = 0x20

abbrev pub dctdb_offset : ℕ
dctdb_offset = 0x24

-- card.h
abbrev pub fcr_offset : ℕ
fcr_offset = 0x00

abbrev pub dstar_offset : ℕ
dstar_offset = 0x30

-- interrupt bits
abbrev pub rfs : ℕ
rfs = 0x00000001

abbrev pub rft : ℕ
rft = 0x00000002

abbrev pub rfe : ℕ
rfe = 0x00000004

abbrev pub rfo : ℕ
rfo = 0x00000008

abbrev pub rdo : ℕ
rdo = 0x00000010

abbrev pub rfl : ℕ
rfl = 0x00000020

abbrev pub tin : ℕ
tin = 0x00000100

abbrev pub dr_hi : ℕ
dr_hi = 0x00000400

abbrev pub dt_hi : ℕ
dt_hi = 0x00000800

abbrev pub dr_fe : ℕ
dr_fe = 0x00001000

abbrev pub dt_fe : ℕ
dt_fe = 0x00002000

abbrev pub dr_stop : ℕ
dr_stop = 0x00004000

abbrev pub dt_stop : ℕ
dt_stop = 0x00008000

abbrev pub tft : ℕ
tft = 0x00010000

abbrev pub alls : ℕ
alls = 0x00020000

abbrev pub tdu : ℕ
tdu = 0x00040000

abbrev pub ctss : ℕ
ctss = 0x01000000

abbrev pub dsrc : ℕ
dsrc = 0x02000000

abbrev pub cdc : ℕ
cdc = 0x04000000

abbrev pub ctsa : ℕ
ctsa = 0x08000000

-- CE_BIT of STAR: set while a command is executing
abbrev pub ce_bit : ℕ
ce_bit = 0x00040000

-- the control word of a descriptor (io.h)
abbrev pub desc_fe_bit : ℕ
desc_fe_bit = 0x80000000

abbrev pub desc_cstop_bit : ℕ
desc_cstop_bit = 0x40000000

abbrev pub desc_hi_bit : ℕ
desc_hi_bit = 0x20000000

abbrev pub dma_max_length : ℕ
dma_max_length = 0x1fffffff

-- enum transmit_modifiers (fscc.h)
abbrev pub xf : ℕ
xf = 0

abbrev pub xrep : ℕ
xrep = 1

abbrev pub txt : ℕ
txt = 2

abbrev pub txext : ℕ
txext = 4
