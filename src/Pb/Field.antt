-- ===== src/Pb/Field.antt =====
-- Field descriptors: `pb_field_s` and the type macros of SOLTA/Pods/nanopb/pb.h, with
-- PB_FIELD_32BIT as SOLTA/Pods/Target Support Files/nanopb/nanopb.xcconfig sets it.
pub mod Ltype
pub mod Htype
pub mod Atype
pub mod Iter
use solta.Base.{ℕ, zero, suc, ◌-◌, ◌^◌, bit_and, List, [], ◌∷◌}

-- `const void *ptr`: the fields of a submessage, by their number in a table of all message types,
-- the bytes of a default value, or NULL.
pub data Ptr : Type 0 where
  null : Ptr
  message : ℕ → Ptr
  initial : List ℕ → Ptr

-- `size_offset` is sign-extended to a 64-bit pattern, as the pointer arithmetic takes it.
pub record Field : Type 0 where
  pub tag : ℕ
  pub type : ℕ
  pub data_offset : ℕ
  pub size_offset : ℕ
  pub data_size : ℕ
  pub array_size : ℕ
  pub ptr : Ptr

-- PB_LTYPE, PB_HTYPE and PB_ATYPE.
abbrev pub ltype : ℕ → ℕ
ltype x = bit_and x 0x0F

abbrev pub htype : ℕ → ℕ
htype x = bit_and x 0x30

abbrev pub atype : ℕ → ℕ
atype x = bit_and x 0xC0

-- PB_SIZE_MAX, of a 32-bit pb_size_t.
abbrev pub pb_size_max : ℕ
pb_size_max = 2 ^ 32 - 1

-- PB_LAST_FIELD.
abbrev pub last_field : Field
last_field = record {
  tag = 0;
  type = 0;
  data_offset = 0;
  size_offset = 0;
  data_size = 0;
  array_size = 0;
  ptr = null;
}

-- The entry `i` of an array that PB_LAST_FIELD ends; the list holds the entries before that one.
abbrev pub field_at : List Field → ℕ → Field
field_at [] i = last_field
field_at (f ∷ fields) zero = f
field_at (f ∷ fields) (suc i) = field_at fields i
