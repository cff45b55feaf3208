-- ===== src/Pb/Message/ValueSafety.antt =====
-- The decoders of single values keep the stream safe, and each takes a byte at least.
use solta.Base.{ℕ, ◌+◌, ◌*◌, ◌%◌, ◌^◌, arith, ltb, ◌==◌}
use solta.Base.{Res, done, failed, fault, M, pure, ◌>>=◌}
use solta.Pb.Errmsg.{
  bytes_overflow, size_too_large, no_malloc_support, string_overflow, integer_too_large,
}
use solta.Pb.Errmsg.{incorrect_fixed_length, invalid_data_size}
use solta.Pb.Istream.{Istream, into, pb_read}
use solta.Pb.Istream.Safety.{Takes, Takes-bind, Takes-pure, Takes-fewer, Takes-pb_read}
use solta.Pb.Varint.{pb_decode_varint, pb_decode_varint32}
use solta.Pb.Varint.Safety.{Takes-pb_decode_varint, Takes-pb_decode_varint32}
use solta.Pb.Field.Atype
use solta.Pb.Field.{Field, atype, pb_size_max}
use solta.Pb.Field.Iter.{offset}
use solta.Pb.Encode.Bytes.{alloc_size}
use solta.Pb.Message.Decoding.{stop}
use solta.Pb.Decode.{
  unzigzag, little_endian32, little_endian64, pb_decode_svarint, pb_decode_fixed32,
  pb_decode_fixed64,
}
use solta.Pb.Decode.Scalar.{
  Decoding, on_stream, put, put_checked, put_sized, sign_extend, pb_dec_varint,
}
use solta.Pb.Decode.Scalar.{pb_dec_uvarint, pb_dec_svarint, pb_dec_fixed32, pb_dec_fixed64}
use solta.Pb.Decode.Bytes.{read_to, store_bytes, clear, pb_dec_bytes, terminate, read_text}
use solta.Pb.Decode.Bytes.{pb_dec_string, pb_dec_fixed_length_bytes}
use solta.Pb.Message.Keeps.{
  Left, Keeps, Keeps-pure, Keeps-on_stream, Keeps-stop, Keeps-change, Keeps-put,
}
use solta.Pb.Message.Keeps.{Keeps-bind, Keeps-if}

module _ {S : Type 0} where
  pub Takes-pb_decode_svarint : Takes {S = S} 1 pb_decode_svarint
  unfolding pb_decode_svarint
  Takes-pb_decode_svarint =
      Takes-bind 1 0 pb_decode_varint _ Takes-pb_decode_varint
        (λ value. Takes-pure ℕ (unzigzag value))

  pub Takes-pb_decode_fixed32 : Takes {S = S} 4 pb_decode_fixed32
  unfolding pb_decode_fixed32
  Takes-pb_decode_fixed32 =
      Takes-bind 4 0 (pb_read into 4) _ (Takes-pb_read into 4)
        (λ bytes. Takes-pure ℕ (little_endian32 bytes))

  pub Takes-pb_decode_fixed64 : Takes {S = S} 8 pb_decode_fixed64
  unfolding pb_decode_fixed64
  Takes-pb_decode_fixed64 =
      Takes-bind 8 0 (pb_read into 8) _ (Takes-pb_read into 8)
        (λ bytes. Takes-pure ℕ (little_endian64 bytes))

  Keeps-put_checked :
      (size dest clamped value : ℕ) → Keeps {S = S} 0 (put_checked size dest clamped value)
  Keeps-put_checked size dest clamped value =
      Keeps-bind 0 0 (put size dest clamped) _ (Keeps-put size dest clamped) λ _.
        Keeps-if 0 (clamped == value) (pure tt) (stop integer_too_large) (Keeps-pure (Unit {0}) tt)
          (Keeps-stop 0 integer_too_large)

  Keeps-put_sized :
      (cast : ℕ → ℕ → ℕ) (data_size dest value : ℕ)
      → Keeps {S = S} 0 (put_sized cast data_size dest value)
  Keeps-put_sized cast data_size dest value =
      Keeps-if 0 (data_size == 8) _ _ (Keeps-put_checked 8 dest value value) (
        Keeps-if 0 (data_size == 4) _ _ (Keeps-put_checked 4 dest (cast 4 value) value) (
          Keeps-if 0 (data_size == 2) _ _ (Keeps-put_checked 2 dest (cast 2 value) value) (
            Keeps-if 0 (data_size == 1) _ _ (Keeps-put_checked 1 dest (cast 1 value) value)
              (Keeps-stop 0 invalid_data_size))))

  -- A number is read, and what follows does not read any more.
  Keeps-read :
      (m : M (Istream S) ℕ) (f : ℕ → M (Decoding S) (Unit {0}))
      → Takes 1 m
      → ((value : ℕ) → Keeps 0 (f value))
      → Keeps 1 (on_stream m >>= f)
  Keeps-read m f h k = Keeps-bind 1 0 (on_stream m) f (Keeps-on_stream 1 m h) k

  pub Keeps-pb_dec_varint : (data_size dest : ℕ) → Keeps {S = S} 1 (pb_dec_varint data_size dest)
  unfolding pb_dec_varint
  Keeps-pb_dec_varint data_size dest =
      Keeps-read pb_decode_varint _ Takes-pb_decode_varint
        (λ value. Keeps-put_sized sign_extend data_size dest _)

  pub Keeps-pb_dec_uvarint : (data_size dest : ℕ) → Keeps {S = S} 1 (pb_dec_uvarint data_size dest)
  unfolding pb_dec_uvarint
  Keeps-pb_dec_uvarint data_size dest =
      Keeps-read pb_decode_varint _ Takes-pb_decode_varint
        (λ value. Keeps-put_sized (λ size v. v % 2 ^ (8 * size)) data_size dest value)

  pub Keeps-pb_dec_svarint : (data_size dest : ℕ) → Keeps {S = S} 1 (pb_dec_svarint data_size dest)
  unfolding pb_dec_svarint
  Keeps-pb_dec_svarint data_size dest =
      Keeps-read pb_decode_svarint _ Takes-pb_decode_svarint
        (λ value. Keeps-put_sized sign_extend data_size dest value)

  pub Keeps-pb_dec_fixed32 : (dest : ℕ) → Keeps {S = S} 1 (pb_dec_fixed32 dest)
  unfolding pb_dec_fixed32
  Keeps-pb_dec_fixed32 dest =
      Keeps-read pb_decode_fixed32 _ (Takes-fewer 4 1 _ (omega arith) Takes-pb_decode_fixed32)
        (λ value. Keeps-put 4 dest value)

  pub Keeps-pb_dec_fixed64 : (dest : ℕ) → Keeps {S = S} 1 (pb_dec_fixed64 dest)
  unfolding pb_dec_fixed64
  Keeps-pb_dec_fixed64 dest =
      Keeps-read pb_decode_fixed64 _ (Takes-fewer 8 1 _ (omega arith) Takes-pb_decode_fixed64)
        (λ value. Keeps-put 8 dest value)

  Keeps-read_to : (dest count : ℕ) → Keeps {S = S} 0 (read_to dest count)
  Keeps-read_to dest count =
      Keeps-bind 0 0 (on_stream (pb_read into count)) _
        (Keeps-on_stream 0 _ (Takes-fewer count 0 _ (omega arith) (Takes-pb_read into count)))
        (λ bytes. Keeps-change (store_bytes bytes dest))

  pub Keeps-pb_dec_bytes : (field : Field) (dest : ℕ) → Keeps {S = S} 1 (pb_dec_bytes field dest)
  unfolding pb_dec_bytes
  Keeps-pb_dec_bytes field dest = Keeps-read pb_decode_varint32 _ Takes-pb_decode_varint32 λ size.
      Keeps-if 0 (ltb pb_size_max size) _ _ (Keeps-stop 0 bytes_overflow) (
        Keeps-if 0 (ltb (alloc_size size) size) _ _ (Keeps-stop 0 size_too_large) (
          Keeps-if 0 (atype field.type == Atype.pointer) _ _ (Keeps-stop 0 no_malloc_support) (
            Keeps-if 0 (ltb field.data_size (alloc_size size)) _ _ (Keeps-stop 0 bytes_overflow) (
              Keeps-bind 0 0 (put 4 dest size) _ (Keeps-put 4 dest size)
                (λ _. Keeps-read_to (offset dest 4) size)))))

  Keeps-read_text : (dest size : ℕ) → Keeps {S = S} 0 (read_text dest size)
  Keeps-read_text dest size slack s safe =
      go (read_to dest size s) (Keeps-read_to dest size slack s safe)
    where
      go :
          (r : Res (Decoding S) (Unit {0}))
          → Left slack 0 s.stream.bytes_left r
          → Left slack 0 s.stream.bytes_left (terminate (offset dest size) r)
      go (done a t) h = h
      go (failed t) h = h
      go fault h = h

  pub Keeps-pb_dec_string : (field : Field) (dest : ℕ) → Keeps {S = S} 1 (pb_dec_string field dest)
  unfolding pb_dec_string
  Keeps-pb_dec_string field dest = Keeps-read pb_decode_varint32 _ Takes-pb_decode_varint32 λ size.
      Keeps-if 0 (ltb ((size + 1) % 2 ^ 32) size) _ _ (Keeps-stop 0 size_too_large) (
        Keeps-if 0 (atype field.type == Atype.pointer) _ _ (Keeps-stop 0 no_malloc_support) (
          Keeps-if 0 (ltb field.data_size ((size + 1) % 2 ^ 32)) _ _ (Keeps-stop 0 string_overflow)
            (Keeps-read_text dest size)))

  pub Keeps-pb_dec_fixed_length_bytes :
      (field : Field) (dest : ℕ) → Keeps {S = S} 1 (pb_dec_fixed_length_bytes field dest)
  unfolding pb_dec_fixed_length_bytes
  Keeps-pb_dec_fixed_length_bytes field dest =
      Keeps-read pb_decode_varint32 _ Takes-pb_decode_varint32 λ size.
        Keeps-if 0 (ltb pb_size_max size) _ _ (Keeps-stop 0 bytes_overflow) (
          Keeps-if 0 (size == 0) _ _ (Keeps-change (clear field.data_size dest)) (
            Keeps-if 0 (size == field.data_size) _ _ (Keeps-read_to dest field.data_size)
              (Keeps-stop 0 incorrect_fixed_length)))
