-- ===== src/Pb/MessageRuns.antt =====
-- Concrete runs of the message encoder, and its theorem at concrete inputs.
use solta.Base.{arith, Res, failed, fault, length, inl, none}
use solta.Pb.Ostream.{pb_ostream_from_buffer}
use solta.Pb.Ostream.Laws.{filling}
use solta.Pb.Message.Encoding.{Encoding}
use solta.Pb.Message.Submessage.{with_mem}
use solta.Pb.Message.Size.{IsSteady, pb_encode-pb_get_encoded_size}
use solta.Pb.Message.Agree.{pure-Emits}
use solta.Base.{ℕ, ◌-◌, ◌^◌, ◌≡◌, refl, List, [], ◌∷◌, zero, suc, done, pure}
use solta.Pb.Memory.{Memory, load}
use solta.Pb.Ostream.{sizing_stream}
use solta.Pb.Field.{Field, null, message}
use solta.Pb.Field.Iter.{pb_field_iter_begin, pb_field_iter_next}
use solta.Pb.Message.Walk.{each_field}
use solta.Pb.Message.Encoding.{Program, pb_encode_tag_for_field, pb_encode_submessage}
use solta.Pb.Message.Default.{pb_check_proto3_default_value, all_zero}
use solta.Pb.Message.Encode.{pb_encoder, pb_enc_submessage, encode_field, encode_basic_field}
use solta.Pb.Message.EncodeAll.{pb_encode, pb_get_encoded_size}
use solta.Pb.Encode.Scalar.{pb_enc_uvarint}
use solta.Pb.Encode.{pb_encode_varint, pb_encode_tag, varint_groups, clear_last}
use solta.Pb.Ostream.{pb_write}

-- A required uint32 and an optional one with its `has_` flag.
abbrev pub number_field : Field
number_field = record {
  tag = 1;
  type = 0x01;
  data_offset = 0;
  size_offset = 0;
  data_size = 4;
  array_size = 0;
  ptr = null;
}

abbrev pub maybe_field : Field
maybe_field = record {
  tag = 2;
  type = 0x11;
  data_offset = 4;
  size_offset = 2 ^ 64 - 4;
  data_size = 4;
  array_size = 0;
  ptr = null;
}

-- A message of the two, as a required field.
abbrev pub part_field : Field
part_field = record {
  tag = 3;
  type = 0x07;
  data_offset = 0;
  size_offset = 0;
  data_size = 12;
  array_size = 0;
  ptr = message 1;
}

-- Message 0 has message 1 in it; the user's functions write nothing.
abbrev pub quiet_types : ℕ → List Field
quiet_types zero = part_field ∷ []
quiet_types (suc n) = number_field ∷ maybe_field ∷ []

abbrev quiet : Program ℕ
quiet = record {
  types = quiet_types;
  callback = λ f field arg. pure tt;
  extension = λ f p. pure tt;
  depth = 2;
  chain = 0;
}

abbrev pub ones : Memory
ones x = 1

size_of_quiet : pb_get_encoded_size quiet 2 0 4096 ones ≡ done 12 ones
unfolding pb_get_encoded_size pb_encode sizing_stream pb_field_iter_begin pb_field_iter_next
    each_field encode_field encode_basic_field pb_encoder pb_enc_uvarint pb_encode_tag_for_field
    load pb_encode_varint pb_encode_tag varint_groups pb_write pb_encode_submessage
    pb_enc_submessage pb_check_proto3_default_value all_zero clear_last
size_of_quiet = refl

abbrev or_empty : Res (Encoding ℕ) (Unit {0}) → Encoding ℕ
or_empty (done a t) = t
or_empty (failed t) = with_mem ones sizing_stream
or_empty fault = with_mem ones sizing_stream

-- The message in an array of 20 bytes.
abbrev encoded : Encoding ℕ
encoded = or_empty (pb_encode quiet 2 0 4096 (with_mem ones (pb_ostream_from_buffer 20 16)))

encode_quiet :
    (pb_encode quiet 2 0 4096 (with_mem ones (pb_ostream_from_buffer 20 16)) ≡ done tt encoded)
    × (encoded.stream.bytes_written ≡ 12)
unfolding pb_encode pb_field_iter_begin pb_field_iter_next sizing_stream pb_ostream_from_buffer
    each_field encode_field encode_basic_field pb_encoder pb_enc_uvarint pb_encode_tag_for_field
    load pb_encode_varint pb_encode_tag varint_groups pb_write pb_encode_submessage
    pb_enc_submessage pb_check_proto3_default_value all_zero clear_last
encode_quiet = (refl, refl)

quiet-IsSteady : IsSteady quiet ones
quiet-IsSteady = record {
  callbacks = λ f field arg. inl ([], pure-Emits (with_mem ones));
  extensions = λ f p. inl ([], pure-Emits (with_mem ones));
}

pb_encode-pb_get_encoded_size_example :
    (bytes : List ℕ) × (encoded
      ≡ with_mem ones (filling bytes (20 - length bytes) 16 (length bytes) none))
    × (pb_get_encoded_size quiet 2 0 4096 ones ≡ done (length bytes) ones)
    × (pb_encode quiet 2 0 4096 (with_mem ones (pb_ostream_from_buffer 12 12))
        ≡ done tt (with_mem ones (filling bytes (12 - length bytes) 12 (length bytes) none)))
pb_encode-pb_get_encoded_size_example =
    pb_encode-pb_get_encoded_size quiet ones quiet-IsSteady 2 0 4096 20 16 12 12 encoded
      (omega arith) (omega arith) (encode_quiet.0) (omega (arith, encode_quiet.1))
      (omega (arith, encode_quiet.1)) (omega arith)
