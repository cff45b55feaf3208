-- ===== src/Pb/Field/Iter.antt =====
-- The field iterator: SOLTA/Pods/nanopb/pb_common.c and `pb_field_iter_s` of pb_common.h.
pub mod Place
pub mod Find
use solta.Base.{ℕ, zero, suc, ◌+◌, ◌-◌, ◌*◌, ◌%◌, ◌^◌, ◌==◌, if◌then◌else◌, ◌&&◌, not}
use solta.Base.{Bool, true, false, List, [], ◌∷◌, length, Option, none, some}
use solta.Pb.Field.Ltype
use solta.Pb.Field.Htype
use solta.Pb.Field.Atype
use solta.Pb.Field.{Field, field_at, ltype, htype, atype, pb_size_max}

-- `start` is the array and `index` is `pos - start`; the pointers are addresses.
pub record FieldIter : Type 0 where
  pub start : List Field
  pub index : ℕ
  pub required_field_index : ℕ
  pub dest_struct : ℕ
  pub p_data : ℕ
  pub p_size : ℕ

-- `*iter->pos`.
abbrev pub pos : FieldIter → Field
pos iter = field_at iter.start iter.index

-- Pointer arithmetic, on 64-bit addresses.
abbrev pub offset : ℕ → ℕ → ℕ
offset address n = (address + n) % 2 ^ 64

unfoldable pub pb_field_iter_begin : List Field → ℕ → FieldIter × Bool
pb_field_iter_begin fields dest_struct =
    let first = field_at fields 0 in
    let place = offset dest_struct first.data_offset in
    (
      record {
        start = fields;
        index = 0;
        required_field_index = 0;
        dest_struct = dest_struct;
        p_data = place;
        p_size = offset place first.size_offset;
      },
      not (first.tag == 0),
    )

-- `prev_size`, the bytes from `pData` to the end of the field in the struct.
abbrev pub prev_size : Field → ℕ
prev_size f =
    if atype f.type == Atype.static && htype f.type == Htype.repeated
    then f.data_size * f.array_size
    else if atype f.type == Atype.pointer
    then 8
    else f.data_size

-- The last `else` of `pb_field_iter_next`: `prev` is `*prev_field`, and `iter` has moved on.
abbrev pub advance : Field → FieldIter → FieldIter
advance prev iter =
    let place = offset iter.p_data (prev_size prev + (pos iter).data_offset) in
    let required = iter.required_field_index + 1 in
    record iter {
      required_field_index =
          if htype prev.type == Htype.required then required else iter.required_field_index;
      p_data = place;
      p_size = offset place (pos iter).size_offset;
    }

abbrev pub same_union : Field → Field → Bool
same_union prev f =
    htype prev.type == Htype.oneof && htype f.type == Htype.oneof && f.data_offset == pb_size_max

unfoldable pub pb_field_iter_next : FieldIter → FieldIter × Bool
pb_field_iter_next iter =
    let next = record iter { index = iter.index + 1 } in
    let wrapped = (pb_field_iter_begin iter.start iter.dest_struct).0 in
    if (pos iter).tag == 0
    then (iter, false)
    else if (pos next).tag == 0
    then (wrapped, false)
    else if same_union (pos iter) (pos next)
    then (next, true)
    else (advance (pos iter) next, true)

-- The loop of `pb_field_iter_find`; `none` is the end of the fuel. `iter->pos != start` compares
-- positions in one array.
unfoldable pub find_rounds : ℕ → ℕ → ℕ → FieldIter → Option (FieldIter × Bool)
find_rounds zero first tag iter = none
find_rounds (suc fuel) first tag iter =
    let next = (pb_field_iter_next iter).0 in
    let more = find_rounds fuel first tag next in
    if (pos iter).tag == tag && not (ltype (pos iter).type == Ltype.extension)
    then some (iter, true)
    else if next.index == first
    then some (next, false)
    else more

-- One round for each entry, and one for an array without entries.
unfoldable pub pb_field_iter_find : ℕ → FieldIter → Option (FieldIter × Bool)
pb_field_iter_find tag iter = find_rounds (length iter.start + 1) iter.index tag iter
