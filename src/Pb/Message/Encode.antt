-- ===== src/Pb/Message/Encode.antt =====
-- "Encode a single field" and "Encode all fields" of SOLTA/Pods/nanopb/pb_encode.c. In the sections
-- `sub` is `pb_encode` for the messages inside the one that is encoded.
use solta.Base.{ℕ, zero, suc, ◌*◌, ◌%◌, ◌^◌, ltb, leb, ◌==◌, if◌then◌else◌, ◌&&◌, ◌||◌, not}
use solta.Base.{Bool, true, false, Option, none, some}
use mathlib.Core.Option
use solta.Base.{Res, done, failed, fault, M, pure, crash, ◌>>◌}
use solta.Pb.Errmsg.{invalid_field_type, array_max_size_exceeded}
use solta.Pb.Errmsg.{missing_required_field, invalid_field_descriptor}
use solta.Pb.Ostream.{sizing_stream}
use solta.Pb.Memory.{Memory, load}
use solta.Pb.Field.Ltype
use solta.Pb.Field.Htype
use solta.Pb.Field.Atype
use solta.Pb.Field.{Field, Ptr, null, message, initial, ltype, htype, atype}
use solta.Pb.Field.Iter.{offset}
use solta.Pb.Encode.{pb_encode_varint, pb_encode_tag}
use solta.Pb.Encode.Scalar.{pb_enc_varint, pb_enc_uvarint, pb_enc_svarint, pb_enc_fixed32}
use solta.Pb.Encode.Scalar.{pb_enc_fixed64}
use solta.Pb.Encode.Bytes.{pb_enc_bytes, pb_enc_string, pb_enc_fixed_length_bytes}
use solta.Pb.Message.Default.{pb_check_proto3_default_value}
use solta.Pb.Message.Encoding.{Encoding, Program, on_stream, stop, reading, callback_outcome}
use solta.Pb.Message.Encoding.{pb_encode_tag_for_field, pb_encode_submessage, size_or_write}

-- The type `pb_encoder_t`, of a field and the address of the data.
abbrev pub Encoder : Type 0 → Type 0
Encoder S = Field → ℕ → M (Encoding S) (Unit {0})

-- The address that `func` is given for an entry at `p`.
abbrev pub entry_address : Field → ℕ → Memory → ℕ
entry_address field p mem =
    if atype field.type == Atype.pointer
      && (ltype field.type == Ltype.string || ltype field.type == Ltype.bytes)
    then load 8 p mem
    else p

-- `*(const bool*)pSize` for an optional field, where `pSize` may point to `implicit_has`.
abbrev pub has_field : Field → ℕ → Memory → Option Bool → Option Bool
has_field field p mem implicit_has =
    if field.size_offset == 0
    then implicit_has
    else some (not (mem (offset p field.size_offset) == 0))

-- `*(const pb_size_t*)pSize`; `implicit_has` is too small for it.
abbrev pub count_field : Field → ℕ → Memory → Option ℕ
count_field field p mem =
    if field.size_offset == 0 then none else some (load 4 (offset p field.size_offset) mem)

module _ {S : Type 0} where
  abbrev pub encode_message :
      (ℕ → ℕ → M (Encoding S) (Unit {0})) → Ptr → ℕ → M (Encoding S) (Unit {0})
  encode_message sub null src = stop invalid_field_descriptor
  encode_message sub (message a) src = pb_encode_submessage (sub a src)
  encode_message sub (initial bytes) src = crash

  unfoldable pub pb_enc_submessage : (ℕ → ℕ → M (Encoding S) (Unit {0})) → Encoder S
  pb_enc_submessage sub field src = encode_message sub field.ptr src

  -- `PB_ENCODERS[PB_LTYPE(field->type)]`; there is none for extensions and after the last type.
  unfoldable pub pb_encoder : (ℕ → ℕ → M (Encoding S) (Unit {0})) → Encoder S
  pb_encoder sub field src =
      let l = ltype field.type in
      if l == Ltype.varint
      then on_stream (pb_enc_varint field.data_size src)
      else if l == Ltype.uvarint
      then on_stream (pb_enc_uvarint field.data_size src)
      else if l == Ltype.svarint
      then on_stream (pb_enc_svarint field.data_size src)
      else if l == Ltype.fixed32
      then on_stream (pb_enc_fixed32 src)
      else if l == Ltype.fixed64
      then on_stream (pb_enc_fixed64 src)
      else if l == Ltype.bytes
      then on_stream (pb_enc_bytes field src)
      else if l == Ltype.string
      then on_stream (pb_enc_string field src)
      else if l == Ltype.submessage
      then pb_enc_submessage sub field src
      else if l == Ltype.fixed_length_bytes
      then on_stream (pb_enc_fixed_length_bytes field src)
      else crash

  -- `for (i = 0; i < count; i++)`, with `p` the address of the next entry.
  unfoldable pub each_entry :
      ℕ → ℕ → ℕ → (ℕ → M (Encoding S) (Unit {0})) → M (Encoding S) (Unit {0})
  each_entry zero data_size p body = pure tt
  each_entry (suc count) data_size p body =
      body p >> each_entry count data_size (offset p data_size) body

  -- The calls on `sizestream`; its error message is lost.
  abbrev pub entries_sized :
      (ℕ → M (Encoding S) (Unit {0})) → Res (Encoding S) (Unit {0}) → M (Encoding S) (Unit {0})
  entries_sized rest (done a t) s = rest t.stream.bytes_written (record s { memory = t.memory })
  entries_sized rest (failed t) s = failed (record s { memory = t.memory })
  entries_sized rest fault s = fault

  -- The size of a packed array, and what follows it.
  abbrev pub with_size :
      Field
      → ℕ
      → M (Encoding S) (Unit {0})
      → (ℕ → M (Encoding S) (Unit {0}))
      → M (Encoding S) (Unit {0})
  with_size field count entries rest s =
      if ltype field.type == Ltype.fixed32
      then rest (4 * count % 2 ^ 64) s
      else if ltype field.type == Ltype.fixed64
      then rest (8 * count % 2 ^ 64) s
      else entries_sized rest (entries (record s { stream = sizing_stream })) s

  abbrev pub encode_packed : Field → ℕ → M (Encoding S) (Unit {0}) → M (Encoding S) (Unit {0})
  encode_packed field count entries =
      on_stream (λ _. pb_encode_tag 2 field.tag)
      >> with_size field count entries (λ size.
        on_stream (λ _. pb_encode_varint size) >> λ s. size_or_write s.stream.sink entries size s)

  unfoldable pub encode_array : Encoder S → Field → ℕ → ℕ → M (Encoding S) (Unit {0})
  encode_array func field p count =
      let packed = encode_packed field count (each_entry count field.data_size p (func field)) in
      let unpacked = each_entry count field.data_size p λ entry.
        on_stream (λ _. pb_encode_tag_for_field field)
        >> reading (λ mem. func field (entry_address field entry mem)) in
      if count == 0
      then pure tt
      else if not (atype field.type == Atype.pointer) && ltb field.array_size count
      then stop array_max_size_exceeded
      else if leb (ltype field.type) Ltype.last_packable
      then packed
      else unpacked

  abbrev pub tag_and_data : Encoder S → Field → ℕ → M (Encoding S) (Unit {0})
  tag_and_data func field p = on_stream (λ _. pb_encode_tag_for_field field) >> func field p

  abbrev pub encode_if : Option Bool → M (Encoding S) (Unit {0}) → M (Encoding S) (Unit {0})
  encode_if none m = crash
  encode_if (some true) m = m
  encode_if (some false) m = pure tt

  abbrev pub with_count : Option ℕ → (ℕ → M (Encoding S) (Unit {0})) → M (Encoding S) (Unit {0})
  with_count none f = crash
  with_count (some n) f = f n

  -- The `switch` of `encode_basic_field`: `place` is `pData` on call, and `p` after the step for
  -- pointers.
  abbrev pub encode_rule :
      Encoder S → Field → ℕ → ℕ → Memory → Option Bool → M (Encoding S) (Unit {0})
  encode_rule func field place p mem implicit_has =
      let rule = htype field.type in
      if rule == Htype.required
      then (if p == 0 then stop missing_required_field else tag_and_data func field p)
      else if rule == Htype.optional
      then encode_if (has_field field place mem implicit_has) (tag_and_data func field p)
      else if rule == Htype.repeated
      then with_count (count_field field place mem) (encode_array func field p)
      else with_count (count_field field place mem)
          (λ which. if which == field.tag then tag_and_data func field p else pure tt)

  abbrev pub encode_basic_at :
      Program S → Encoder S → Field → ℕ → Memory → M (Encoding S) (Unit {0})
  encode_basic_at program func field p mem =
      let default = pb_check_proto3_default_value program.depth program.types mem field p in
      let implicit =
        if htype field.type == Htype.optional then Option.map not default else some true in
      if atype field.type == Atype.pointer
      then encode_rule func field p (load 8 p mem) mem (some (not (load 8 p mem == 0)))
      else encode_rule func field p p mem implicit

  unfoldable pub encode_basic_field : Program S → Encoder S → Field → ℕ → M (Encoding S) (Unit {0})
  encode_basic_field program func field p = reading (encode_basic_at program func field p)

  -- `callback->funcs.encode(stream, field, &callback->arg)`.
  abbrev pub encode_callback_at : Program S → Field → ℕ → Memory → M (Encoding S) (Unit {0})
  encode_callback_at program field p mem =
      let f = load 8 p mem in
      if f == 0 then pure tt else λ s. callback_outcome (program.callback f field (offset p 8) s)

  unfoldable pub encode_callback_field : Program S → Field → ℕ → M (Encoding S) (Unit {0})
  encode_callback_field program field p = reading (encode_callback_at program field p)

  unfoldable pub encode_field :
      Program S → (ℕ → ℕ → M (Encoding S) (Unit {0})) → Field → ℕ → M (Encoding S) (Unit {0})
  encode_field program sub field p =
      if atype field.type == Atype.static
      then encode_basic_field program (pb_encoder sub) field p
      else if atype field.type == Atype.pointer
      then encode_basic_field program (pb_encoder sub) field p
      else if atype field.type == Atype.callback
      then encode_callback_field program field p
      else stop invalid_field_type
