-- ===== src/Pb/Field/Atype.antt =====
-- PB_ATYPE_*, the allocation types of SOLTA/Pods/nanopb/pb.h.
use solta.Base.{ℕ}

abbrev pub static : ℕ
static = 0x00

abbrev pub pointer : ℕ
pointer = 0x80

abbrev pub callback : ℕ
callback = 0x40
