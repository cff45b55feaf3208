-- ===== src/Pb/Message/Decoding.antt =====
-- What the decoders of messages in SOLTA/Pods/nanopb/pb_decode.c work on, and "Decode a single
-- field", built without PB_ENABLE_MALLOC. In the sections `sub` and `sub_noinit` are `pb_decode` and
-- `pb_decode_noinit` for the messages inside the one that is decoded.
use solta.Base.{ℕ, zero, suc, ◌+◌, ◌*◌, ◌%◌, ◌^◌, ltb, leb, ◌==◌, if◌then◌else◌, ◌&&◌}
use solta.Base.{List, length}
use solta.Base.{Res, done, failed, fault, M, pure, crash, ◌>>=◌, ◌>>◌}
use solta.Pb.Errmsg.{Errmsg, invalid_field_descriptor, array_overflow, invalid_field_type}
use solta.Pb.Errmsg.{no_malloc_support, callback_failed}
use solta.Pb.Istream.{Istream, return_error, pb_istream_from_buffer}
use solta.Pb.Varint.{pb_skip_field, read_raw_value}
use solta.Pb.Substream.{pb_make_string_substream, pb_close_string_substream}
use solta.Pb.Memory.{Memory, load}
use solta.Pb.Field.Ltype
use solta.Pb.Field.Htype
use solta.Pb.Field.Atype
use solta.Pb.Field.{Field, Ptr, null, message, initial, ltype, htype, atype}
use solta.Pb.Field.Iter.{FieldIter, pos, offset}
use solta.Pb.Decode.Scalar.{Decoding, on_stream, put, pb_dec_varint, pb_dec_uvarint}
use solta.Pb.Decode.Scalar.{pb_dec_svarint, pb_dec_fixed32, pb_dec_fixed64}
use solta.Pb.Decode.Bytes.{clear, change, pb_dec_bytes, pb_dec_string, pb_dec_fixed_length_bytes}
use solta.Pb.Message.Walk.{Types, submsg_fields}
use solta.Pb.Message.Reset.{defaults_of, pb_message_set_to_defaults}

-- What the decoder is linked with: the message types, and the user's functions by their addresses,
-- `pb_callback_s.funcs.decode` with the field and the address of `arg`, and
-- `pb_extension_type_s.decode` with the extension, the tag and the wire type. `depth` bounds how deep
-- messages are nested where they are set to defaults, `chain` the length of a list of extensions,
-- and `calls` how often a callback is called for one string.
pub record Program (S : Type 0) : Type 0 where
  pub types : Types
  pub callback : ℕ → Field → ℕ → M (Decoding S) (Unit {0})
  pub extension : ℕ → ℕ → ℕ → ℕ → M (Decoding S) (Unit {0})
  pub depth : ℕ
  pub chain : ℕ
  pub calls : ℕ

-- The type `pb_decoder_t`, of a field and the address of its data.
abbrev pub Decoder : Type 0 → Type 0
Decoder S = Field → ℕ → M (Decoding S) (Unit {0})

-- `(char*)iter->pData + iter->pos->data_size * (*size)`, where the product is of 32-bit numbers.
abbrev pub item : FieldIter → ℕ → ℕ
item iter size = offset iter.p_data ((pos iter).data_size * size % 2 ^ 32)

module _ {S : Type 0} where
  abbrev pub stop : Errmsg → M (Decoding S) (Unit {0})
  stop e = on_stream (return_error e)

  -- A call whose `false` is kept while the function goes on.
  abbrev pub status_false : Res (Decoding S) (Unit {0}) → Res (Decoding S) (Unit {0})
  status_false (done a t) = failed t
  status_false (failed t) = failed t
  status_false fault = fault

  abbrev pub close_with : Decoding S → M (Decoding S) (Unit {0})
  close_with t s = on_stream (pb_close_string_substream t.stream) (record s { memory = t.memory })

  -- `if (!pb_close_string_substream(stream, &substream)) return false; return status;`.
  abbrev pub close_after : Res (Decoding S) (Unit {0}) → M (Decoding S) (Unit {0})
  close_after (done a t) s = close_with t s
  close_after (failed t) s = status_false (close_with t s)
  close_after fault s = fault

  -- A substream is made for the length that stands first, and `m` works on it.
  abbrev pub in_substream :
      M (Decoding S) (Unit {0})
      → (Res (Decoding S) (Unit {0}) → M (Decoding S) (Unit {0}))
      → M (Decoding S) (Unit {0})
  in_substream m after =
      on_stream pb_make_string_substream >>= λ sub s. after (m (record s { stream = sub })) s

  -- `pb_dec_submessage`, where `ptr` is `field->ptr`; the type of message is found first, the stream
  -- is read first.
  abbrev pub decode_message :
      (ℕ → ℕ → M (Decoding S) (Unit {0})) → Ptr → ℕ → M (Decoding S) (Unit {0})
  decode_message decode null dest =
      on_stream pb_make_string_substream >>= λ sub. stop invalid_field_descriptor
  decode_message decode (message a) dest = in_substream (decode a dest) close_after
  decode_message decode (initial bytes) dest = on_stream pb_make_string_substream >>= λ sub. crash

  unfoldable pub pb_dec_submessage :
      (ℕ → ℕ → M (Decoding S) (Unit {0})) → (ℕ → ℕ → M (Decoding S) (Unit {0})) → Decoder S
  pb_dec_submessage sub sub_noinit field dest =
      decode_message (if htype field.type == Htype.repeated then sub else sub_noinit) field.ptr dest

  -- `PB_DECODERS[PB_LTYPE(type)]`; there is none for extensions and after the last type.
  unfoldable pub pb_decoder :
      (ℕ → ℕ → M (Decoding S) (Unit {0})) → (ℕ → ℕ → M (Decoding S) (Unit {0})) → Decoder S
  pb_decoder sub sub_noinit field dest =
      let l = ltype field.type in
      if l == Ltype.varint
      then pb_dec_varint field.data_size dest
      else if l == Ltype.uvarint
      then pb_dec_uvarint field.data_size dest
      else if l == Ltype.svarint
      then pb_dec_svarint field.data_size dest
      else if l == Ltype.fixed32
      then pb_dec_fixed32 dest
      else if l == Ltype.fixed64
      then pb_dec_fixed64 dest
      else if l == Ltype.bytes
      then pb_dec_bytes field dest
      else if l == Ltype.string
      then pb_dec_string field dest
      else if l == Ltype.submessage
      then pb_dec_submessage sub sub_noinit field dest
      else if l == Ltype.fixed_length_bytes
      then pb_dec_fixed_length_bytes field dest
      else crash

  -- The `while` loop over a packed array, on the substream. Each item takes a byte at least, so one
  -- round more than the bytes of the substream is enough.
  unfoldable pub packed_rounds : Decoder S → FieldIter → ℕ → M (Decoding S) (Unit {0})
  packed_rounds func iter zero s = fault
  packed_rounds func iter (suc fuel) s =
      let size = load 4 iter.p_size s.memory in
      let round = func (pos iter) (item iter size) >> λ t.
      (put 4 iter.p_size (load 4 iter.p_size t.memory + 1) >> packed_rounds func iter fuel) t in
      if ltb 0 s.stream.bytes_left && ltb size (pos iter).array_size then round s else done tt s

  -- After the loop.
  abbrev pub after_packed : Res (Decoding S) (Unit {0}) → M (Decoding S) (Unit {0})
  after_packed (done a t) s =
      if t.stream.bytes_left == 0
      then close_with t s
      else stop array_overflow (record s { memory = t.memory })
  after_packed (failed t) s =
      if t.stream.bytes_left == 0
      then status_false (close_with t s)
      else stop array_overflow (record s { memory = t.memory })
  after_packed fault s = fault

  abbrev pub packed_array : Decoder S → FieldIter → M (Decoding S) (Unit {0})
  packed_array func iter =
      in_substream (λ s. packed_rounds func iter (s.stream.bytes_left + 1) s) after_packed

  abbrev pub repeated_item : Decoder S → FieldIter → M (Decoding S) (Unit {0})
  repeated_item func iter s =
      let size = load 4 iter.p_size s.memory in
      if leb (pos iter).array_size size
      then stop array_overflow s
      else (put 4 iter.p_size (size + 1) >> func (pos iter) (item iter size)) s

  -- A change of the memory by a function that does not touch the stream.
  abbrev pub with_stream : Istream S → Res Memory (Unit {0}) → Res (Decoding S) (Unit {0})
  with_stream t (done a mem) = done a (record { stream = t; memory = mem })
  with_stream t (failed mem) = failed (record { stream = t; memory = mem })
  with_stream t fault = fault

  abbrev pub on_memory : M Memory (Unit {0}) → M (Decoding S) (Unit {0})
  on_memory m s = with_stream s.stream (m s.memory)

  abbrev pub reset_message : Program S → FieldIter → M (Decoding S) (Unit {0})
  reset_message program iter =
      change (clear (pos iter).data_size iter.p_data)
      >> on_memory (
          defaults_of (pb_message_set_to_defaults program.depth program.chain program.types)
            (submsg_fields program.types (pos iter).ptr) iter.p_data)

  unfoldable pub decode_static_field :
      Program S → Decoder S → ℕ → FieldIter → M (Decoding S) (Unit {0})
  decode_static_field program func wire_type iter =
      let type = (pos iter).type in
      if htype type == Htype.required
      then func (pos iter) iter.p_data
      else if htype type == Htype.optional
      then ((if iter.p_size == iter.p_data then pure tt else put 1 iter.p_size 1)
          >> func (pos iter) iter.p_data)
      else if htype type == Htype.repeated
      then (if wire_type == 2 && leb (ltype type) Ltype.last_packable
          then packed_array func iter
          else repeated_item func iter)
      else (put 4 iter.p_size (pos iter).tag
          >> (if ltype type == Ltype.submessage then reset_message program iter else pure tt)
          >> func (pos iter) iter.p_data)

  -- The `do … while (substream.bytes_left)` of a callback, on the substream.
  unfoldable pub callback_rounds : M (Decoding S) (Unit {0}) → ℕ → M (Decoding S) (Unit {0})
  callback_rounds decode zero s = fault
  callback_rounds decode (suc calls) s =
      let more = λ (t : Decoding S).
        let rest = callback_rounds decode calls t in
        if t.stream.bytes_left == 0 then done tt t else rest in
      (decode >> more) s

  abbrev pub after_callback : Res (Decoding S) (Unit {0}) → M (Decoding S) (Unit {0})
  after_callback (done a t) s = close_with t s
  after_callback (failed t) s = stop callback_failed (record s { memory = t.memory })
  after_callback fault s = fault

  -- The status and the memory of a call on another stream.
  abbrev pub keep_stream : Istream S → Res (Decoding S) (Unit {0}) → Res (Decoding S) (Unit {0})
  keep_stream s (done a t) = done a (record t { stream = s })
  keep_stream s (failed t) = failed (record t { stream = s })
  keep_stream s fault = fault

  abbrev pub callback_value : M (Decoding S) (Unit {0}) → List ℕ → M (Decoding S) (Unit {0})
  callback_value decode buffer s =
      keep_stream s.stream
        (decode (record s { stream = pb_istream_from_buffer buffer (length buffer) }))

  -- `decode` is what stands at `pCallback->funcs.decode`, and `f` its address.
  abbrev pub decode_by : ℕ → M (Decoding S) (Unit {0}) → ℕ → ℕ → M (Decoding S) (Unit {0})
  decode_by f decode calls wire_type =
      if f == 0
      then on_stream (pb_skip_field wire_type)
      else if wire_type == 2
      then in_substream (callback_rounds decode calls) after_callback
      else (on_stream (read_raw_value wire_type 10) >>= callback_value decode)

  unfoldable pub decode_callback_field : Program S → ℕ → FieldIter → M (Decoding S) (Unit {0})
  decode_callback_field program wire_type iter s =
      let f = load 8 iter.p_data s.memory in
      decode_by f (program.callback f (pos iter) (offset iter.p_data 8)) program.calls wire_type s

  unfoldable pub decode_field : Program S → Decoder S → ℕ → FieldIter → M (Decoding S) (Unit {0})
  decode_field program func wire_type iter =
      let a = atype (pos iter).type in
      if a == Atype.static
      then decode_static_field program func wire_type iter
      else if a == Atype.pointer
      then stop no_malloc_support
      else if a == Atype.callback
      then decode_callback_field program wire_type iter
      else stop invalid_field_type
