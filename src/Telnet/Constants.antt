-- ===== src/Telnet/Constants.antt =====
-- src/core/network/telnet/constants.rs: the bytes of the telnet protocol.
use oxigeon.Base.{ℕ}

abbrev pub iac : ℕ
iac = 255

abbrev pub se : ℕ
se = 240

abbrev pub sb : ℕ
sb = 250

abbrev pub will : ℕ
will = 251

abbrev pub wont : ℕ
wont = 252

abbrev pub do_verb : ℕ
do_verb = 253

abbrev pub dont : ℕ
dont = 254

abbrev pub opt_echo : ℕ
opt_echo = 1

abbrev pub opt_sga : ℕ
opt_sga = 3

abbrev pub opt_ttype : ℕ
opt_ttype = 24

abbrev pub opt_naws : ℕ
opt_naws = 31

abbrev pub opt_mccp2 : ℕ
opt_mccp2 = 86

abbrev pub opt_mxp : ℕ
opt_mxp = 91

abbrev pub opt_gmcp : ℕ
opt_gmcp = 201

abbrev pub cr : ℕ
cr = 13

abbrev pub lf : ℕ
lf = 10

abbrev pub nul : ℕ
nul = 0

abbrev pub esc : ℕ
esc = 27
