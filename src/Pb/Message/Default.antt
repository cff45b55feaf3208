-- ===== src/Pb/Message/Default.antt =====
-- `pb_check_proto3_default_value` of SOLTA/Pods/nanopb/pb_encode.c.
use solta.Base.{
  ℕ, zero, suc, ◌==◌, if◌then◌else◌, ◌&&◌, Bool, true, false, length, List, Option, none, some,
}
use solta.Pb.Memory.{Memory, next_address, load}
use solta.Pb.Field.Ltype
use solta.Pb.Field.Atype
use solta.Pb.Field.{Field, ltype, atype}
use solta.Pb.Field.Iter.{FieldIter, pos, pb_field_iter_begin, pb_field_iter_next}
use solta.Pb.Message.Walk.{Types, submsg_fields}

-- The byte-per-byte comparison.
unfoldable pub all_zero : ℕ → ℕ → Memory → Bool
all_zero zero p mem = true
all_zero (suc n) p mem = elim (mem p == 0) [
  | true ↦ all_zero n (next_address p) mem
  | false ↦ false
]

-- The loop over the fields of a submessage; `none` is the end of the fuel or what
-- C leaves undefined.
unfoldable pub all_default : ℕ → (Field → ℕ → Option Bool) → FieldIter → Option Bool
all_default zero check iter = none
all_default (suc rounds) check iter =
    let (next, more) = pb_field_iter_next iter in
    elim (check (pos iter) iter.p_data) [
      | none ↦ none
      | some false ↦ some false
      | some true ↦ elim more [ true ↦ all_default rounds check next | false ↦ some true ]
    ]

abbrev pub fields_default : Option (List Field) → ℕ → (Field → ℕ → Option Bool) → Option Bool
fields_default none p check = none
fields_default (some fields) p check =
    let (iter, more) = pb_field_iter_begin fields p in
    if more then all_default (length fields) check iter else some true

-- The first number is how deep submessages may be nested; the last argument is `pData`.
unfoldable pub pb_check_proto3_default_value : ℕ → Types → Memory → Field → ℕ → Option Bool
pb_check_proto3_default_value zero types mem field p = none
pb_check_proto3_default_value (suc depth) types mem field p =
    let static = atype field.type == Atype.static in
    let sub = pb_check_proto3_default_value depth types mem in
    if static && ltype field.type == Ltype.bytes
    then some (load 4 p mem == 0)
    else if static && ltype field.type == Ltype.string
    then some (mem p == 0)
    else if static && ltype field.type == Ltype.fixed_length_bytes
    then some (field.data_size == 0)
    else if static && ltype field.type == Ltype.submessage
    then fields_default (submsg_fields types field.ptr) p sub
    else some (all_zero field.data_size p mem)
