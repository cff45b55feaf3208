-- ===== src/Pb/Message/Reset.antt =====
-- `iter_from_extension`, `pb_field_set_to_default` and `pb_message_set_to_defaults` of
-- SOLTA/Pods/nanopb/pb_decode.c, on the memory that the struct lies in.
use solta.Base.{
  ℕ, zero, suc, ltb, ◌==◌, if◌then◌else◌, ◌&&◌, ◌||◌, not, length, take, List, Option, none, some,
}
use solta.Base.{done, fault, M, pure, crash, and_then, ◌>>◌}
use solta.Pb.Memory.{Memory, store, load}
use solta.Pb.Field.Ltype
use solta.Pb.Field.Htype
use solta.Pb.Field.Atype
use solta.Pb.Field.{Field, Ptr, null, message, initial, field_at, ltype, htype, atype}
use solta.Pb.Field.Iter.{FieldIter, pos, pb_field_iter_begin}
use solta.Pb.Decode.Bytes.{store_bytes, clear}
use solta.Pb.Message.Walk.{Types, submsg_fields, all_fields, extension_type, extension_dest}
use solta.Pb.Message.Walk.{extension_next, extension_found, type_arg}

-- The argument is the address of the extension.
abbrev pub iter_from_extension : Types → ℕ → Memory → FieldIter
iter_from_extension types p mem =
    let fields = types (type_arg (extension_type p mem) mem) in
    let dest = load 8 (extension_dest p) mem in
    record (pb_field_iter_begin fields dest).0 {
      p_data = if atype (field_at fields 0).type == Atype.pointer then extension_dest p else dest;
      p_size = extension_found p;
    }

abbrev pub change : (Memory → Memory) → M Memory (Unit {0})
change f mem = done tt (f mem)

-- `sub` is `pb_message_set_to_defaults` of the fields of a submessage.
abbrev pub defaults_of :
    (List Field → ℕ → M Memory (Unit {0})) → Option (List Field) → ℕ → M Memory (Unit {0})
defaults_of sub none dest = crash
defaults_of sub (some fields) dest = sub fields dest

-- The `memcpy` or `memset` of a field that is no submessage; a default value is as long as the field.
abbrev pub initialize : ℕ → Ptr → ℕ → M Memory (Unit {0})
initialize size null dest = change (clear size dest)
initialize size (initial bytes) dest =
    if ltb (length bytes) size then crash else change (store_bytes (take size bytes) dest)
initialize size (message a) dest = crash

abbrev pub init_data :
    Types → (List Field → ℕ → M Memory (Unit {0})) → FieldIter → M Memory (Unit {0})
init_data types sub iter =
    if ltype (pos iter).type == Ltype.submessage
    then defaults_of sub (submsg_fields types (pos iter).ptr) iter.p_data
    else initialize (pos iter).data_size (pos iter).ptr iter.p_data

-- The branches for fields that are no extensions.
abbrev pub set_plain :
    Types → (List Field → ℕ → M Memory (Unit {0})) → FieldIter → M Memory (Unit {0})
set_plain types sub iter =
    let rule = htype (pos iter).type in
    let counted = rule == Htype.repeated || rule == Htype.oneof in
    if atype (pos iter).type == Atype.static
    then (if rule == Htype.optional && not (iter.p_size == iter.p_data)
        then change (store 1 iter.p_size 0) >> init_data types sub iter
        else if counted
        then change (store 4 iter.p_size 0)
        else init_data types sub iter)
    else if atype (pos iter).type == Atype.pointer
    then change (store 8 iter.p_data 0)
      >> (if counted then change (store 4 iter.p_size 0) else pure tt)
    else pure tt

-- The list of extensions from `p` on, of at most `chain`; `set` is for one extension's field.
unfoldable pub reset_extensions :
    Types → (FieldIter → M Memory (Unit {0})) → ℕ → ℕ → M Memory (Unit {0})
reset_extensions types set zero p mem = if p == 0 then done tt mem else fault
reset_extensions types set (suc chain) p mem =
    let found = store 1 (extension_found p) 0 mem in
    let one = set (iter_from_extension types p found) found in
    let rest =
      and_then one (λ _ mem'. reset_extensions types set chain (extension_next p mem') mem') in
    if p == 0 then done tt mem else rest

-- The first number is how deep messages are nested, the second the length of a list of extensions.
-- An extension's field counts as nested in the field for the extensions.
unfoldable pub pb_field_set_to_default : ℕ → ℕ → Types → FieldIter → M Memory (Unit {0})
pb_field_set_to_default zero chain types iter mem = fault
pb_field_set_to_default (suc depth) chain types iter mem =
    let set = pb_field_set_to_default depth chain types in
    if ltype (pos iter).type == Ltype.extension
    then reset_extensions types set chain (load 8 iter.p_data mem) mem
    else set_plain types (λ fields dest. all_fields fields dest set) iter mem

unfoldable pub pb_message_set_to_defaults : ℕ → ℕ → Types → List Field → ℕ → M Memory (Unit {0})
pb_message_set_to_defaults depth chain types fields dest =
    all_fields fields dest (pb_field_set_to_default depth chain types)
