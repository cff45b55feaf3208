-- ===== src/Pb/Message/Encoding.antt =====
-- What the encoders of messages in SOLTA/Pods/nanopb/pb_encode.c work on, and
-- `pb_encode_tag_for_field` and `pb_encode_submessage`. The struct is read from a memory, which only
-- user callbacks change.
use solta.Base.{ℕ, ◌+◌, ◌%◌, ◌^◌, ltb, ◌==◌, if◌then◌else◌, ◌||◌}
use solta.Base.{[], Option, none, some}
use solta.Base.{Res, done, failed, fault, M, ◌>>◌}
use solta.Pb.Errmsg.{Errmsg, stream_full, invalid_field_type}
use solta.Pb.Errmsg.{callback_error, submsg_size_changed}
use solta.Pb.Ostream.{Ostream, Sink, sizing, buf_write, user, pb_write, sizing_stream, return_error}
use solta.Pb.Ostream.{set_error}
use solta.Pb.Memory.{Memory}
use solta.Pb.Field.Ltype
use solta.Pb.Field.{Field, ltype}
use solta.Pb.Encode.{pb_encode_varint, pb_encode_tag}
use solta.Pb.Message.Walk.{Types}

-- A stream, and the memory that the struct lies in.
pub record Encoding (S : Type 0) : Type 0 where
  pub stream : Ostream S
  pub memory : Memory

-- What the encoder is linked with: the message types, and the user's functions by their addresses,
-- `pb_callback_s.funcs.encode` with the field and the address of `arg`, and
-- `pb_extension_type_s.encode` with the extension. `depth` bounds how deep messages are nested in
-- the check for default values, and `chain` the length of a list of extensions.
pub record Program (S : Type 0) : Type 0 where
  pub types : Types
  pub callback : ℕ → Field → ℕ → M (Encoding S) (Unit {0})
  pub extension : ℕ → ℕ → M (Encoding S) (Unit {0})
  pub depth : ℕ
  pub chain : ℕ

-- The wire type that `pb_encode_tag_for_field` chooses.
abbrev pub wire_type_of : ℕ → Option ℕ
wire_type_of l =
    if l == Ltype.varint || l == Ltype.uvarint || l == Ltype.svarint
    then some 0
    else if l == Ltype.fixed32
    then some 5
    else if l == Ltype.fixed64
    then some 1
    else if l == Ltype.bytes
        || l == Ltype.string
        || l == Ltype.submessage
        || l == Ltype.fixed_length_bytes
    then some 2
    else none

module _ {S : Type 0} where
  abbrev pub with_memory : {A : Type 0} → Memory → Res (Ostream S) A → Res (Encoding S) A
  with_memory mem (done a t) = done a (record { stream = t; memory = mem })
  with_memory mem (failed t) = failed (record { stream = t; memory = mem })
  with_memory mem fault = fault

  -- A call that reads the memory and changes the stream only.
  abbrev pub on_stream : {A : Type 0} → (Memory → M (Ostream S) A) → M (Encoding S) A
  on_stream m s = with_memory s.memory (m s.memory s.stream)

  abbrev pub stop : Errmsg → M (Encoding S) (Unit {0})
  stop e = on_stream (λ _. return_error e)

  -- What depends on the memory as it is now.
  abbrev pub reading : (Memory → M (Encoding S) (Unit {0})) → M (Encoding S) (Unit {0})
  reading f s = f s.memory s

  -- `if (!call) PB_RETURN_ERROR(stream, "callback error")`.
  abbrev pub callback_outcome : Res (Encoding S) (Unit {0}) → Res (Encoding S) (Unit {0})
  callback_outcome (done a t) = done a t
  callback_outcome (failed t) = failed (record t { stream = set_error callback_error t.stream })
  callback_outcome fault = fault

  abbrev pub tag_or_error : Field → Option ℕ → M (Ostream S) (Unit {0})
  tag_or_error field (some wiretype) = pb_encode_tag wiretype field.tag
  tag_or_error field none = return_error invalid_field_type

  unfoldable pub pb_encode_tag_for_field : Field → M (Ostream S) (Unit {0})
  pb_encode_tag_for_field field = tag_or_error field (wire_type_of (ltype field.type))

  -- `pb_encode_submessage`, where `encode` is `pb_encode` of the fields and the struct: from the
  -- second call of it on.
  abbrev pub submsg_written :
      ℕ → Ostream S → Res (Encoding S) (Unit {0}) → Res (Encoding S) (Unit {0})
  submsg_written size s fault = fault
  submsg_written size s (done a t) =
      let s' : Ostream S = record s {
        sink = t.stream.sink;
        bytes_written = (s.bytes_written + t.stream.bytes_written) % 2 ^ 64;
        errmsg = t.stream.errmsg;
      } in
      if t.stream.bytes_written == size
      then done a (record { stream = s'; memory = t.memory })
      else failed (record { stream = set_error submsg_size_changed s'; memory = t.memory })
  submsg_written size s (failed t) =
      let s' : Ostream S = record s {
        sink = t.stream.sink;
        bytes_written = (s.bytes_written + t.stream.bytes_written) % 2 ^ 64;
        errmsg = t.stream.errmsg;
      } in
      if t.stream.bytes_written == size
      then failed (record { stream = s'; memory = t.memory })
      else failed (record { stream = set_error submsg_size_changed s'; memory = t.memory })

  abbrev pub write_submsg : M (Encoding S) (Unit {0}) → ℕ → M (Encoding S) (Unit {0})
  write_submsg encode size s =
      if ltb s.stream.max_size ((s.stream.bytes_written + size) % 2 ^ 64)
      then stop stream_full s
      else submsg_written size s.stream (
          encode (record s {
            stream = record s.stream { max_size = size; bytes_written = 0; errmsg = none };
          }))

  -- `if (stream->callback == NULL)`, and else.
  abbrev pub size_or_write : Sink S → M (Encoding S) (Unit {0}) → ℕ → M (Encoding S) (Unit {0})
  size_or_write sizing m size = on_stream (λ _. pb_write [] size)
  size_or_write (buf_write stored room) m size = m
  size_or_write (user f state) m size = m

  -- After the first call, on `substream`.
  abbrev pub submsg_sized :
      M (Encoding S) (Unit {0}) → Res (Encoding S) (Unit {0}) → M (Encoding S) (Unit {0})
  submsg_sized encode (done a t) s =
      let size = t.stream.bytes_written in
      (on_stream (λ _. pb_encode_varint size) >> λ s'.
      size_or_write s'.stream.sink (write_submsg encode size) size s')
        (record s { memory = t.memory })
  submsg_sized encode (failed t) s =
      failed (record { stream = record s.stream { errmsg = t.stream.errmsg }; memory = t.memory })
  submsg_sized encode fault s = fault

  unfoldable pub pb_encode_submessage : M (Encoding S) (Unit {0}) → M (Encoding S) (Unit {0})
  pb_encode_submessage encode s =
      submsg_sized encode (encode (record s { stream = sizing_stream })) s
