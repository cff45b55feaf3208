-- ===== src/Pb/Message/Walk.antt =====
-- The loop `do … while (pb_field_iter_next(&iter))` of the functions that treat all fields of a
-- message, and the structs that fields may point to.
use solta.Base.{ℕ, zero, suc, if◌then◌else◌, length, List, Option, none, some}
use solta.Base.{M, pure, crash, ◌>>◌}
use solta.Pb.Memory.{Memory, load}
use solta.Pb.Field.{Field, Ptr, null, message, initial}
use solta.Pb.Field.Iter.{FieldIter, offset, pb_field_iter_begin, pb_field_iter_next}

-- The message types of the program, by the addresses of their arrays of fields.
abbrev pub Types : Type 0
Types = ℕ → List Field

-- `(const pb_field_t*)field->ptr`; `none` where that is not the fields of a message, so that C
-- leaves it undefined to follow it.
abbrev pub submsg_fields : Types → Ptr → Option (List Field)
submsg_fields types (message a) = some (types a)
submsg_fields types null = none
submsg_fields types (initial bytes) = none

-- The addresses of the members of `pb_extension_s` and `pb_extension_type_s`; a NULL pointer is 0.
abbrev pub extension_type : ℕ → Memory → ℕ
extension_type p mem = load 8 p mem

abbrev pub extension_dest : ℕ → ℕ
extension_dest p = offset p 8

abbrev pub extension_next : ℕ → Memory → ℕ
extension_next p mem = load 8 (offset p 16) mem

abbrev pub extension_found : ℕ → ℕ
extension_found p = offset p 24

abbrev pub type_decode : ℕ → Memory → ℕ
type_decode t mem = load 8 t mem

abbrev pub type_encode : ℕ → Memory → ℕ
type_encode t mem = load 8 (offset t 8) mem

abbrev pub type_arg : ℕ → Memory → ℕ
type_arg t mem = load 8 (offset t 16) mem

module _ {T : Type 0} where
  -- One round for each entry from the iterator on.
  unfoldable pub each_field : ℕ → (FieldIter → M T (Unit {0})) → FieldIter → M T (Unit {0})
  each_field zero body iter = crash
  each_field (suc rounds) body iter =
      let (next, more) = pb_field_iter_next iter in
      let rest = each_field rounds body next in body iter >> (if more then rest else pure tt)

  -- From `pb_field_iter_begin` on; nothing is done for a message type without fields.
  abbrev pub all_fields : List Field → ℕ → (FieldIter → M T (Unit {0})) → M T (Unit {0})
  all_fields fields dest_struct body =
      let (iter, more) = pb_field_iter_begin fields dest_struct in
      if more then each_field (length fields) body iter else pure tt
