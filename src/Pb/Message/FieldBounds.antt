-- ===== src/Pb/Message/FieldBounds.antt =====
-- The decoder of a value writes inside its field only, whatever the length that the stream gives.
use solta.Base.{ℕ, ◌+◌, ◌*◌, ◌%◌, ◌≤◌, ◌<◌, ◌^◌, ◌≡◌, refl, ◌∙◌, arith, ltb, ◌==◌, ==→eq, ◌⊎◌}
use solta.Base.{Res, done, failed, fault, M, pure, ◌>>=◌}
use solta.Pb.Errmsg.{bytes_overflow, size_too_large, no_malloc_support, string_overflow}
use solta.Pb.Errmsg.{incorrect_fixed_length, invalid_data_size, integer_too_large}
use solta.Pb.Istream.{Istream}
use solta.Pb.Istream.Safety.{IsSafe, Takes, Takes-fewer}
use solta.Pb.Varint.{pb_decode_varint, pb_decode_varint32}
use solta.Pb.Varint.Safety.{Takes-pb_decode_varint, Takes-pb_decode_varint32}
use solta.Pb.Memory.{Memory, store, store-outside}
use solta.Pb.Field.Ltype
use solta.Pb.Field.Atype
use solta.Pb.Field.{Field, ltype, atype, pb_size_max}
use solta.Pb.Field.Iter.{offset}
use solta.Pb.Encode.Bytes.{alloc_size}
use solta.Pb.Decode.{pb_decode_svarint, pb_decode_fixed32, pb_decode_fixed64}
use solta.Pb.Decode.Scalar.{
  Decoding, on_stream, put, put_checked, put_sized, sign_extend, pb_dec_varint,
}
use solta.Pb.Decode.Scalar.{pb_dec_uvarint, pb_dec_svarint, pb_dec_fixed32, pb_dec_fixed64}
use solta.Pb.Decode.Bytes.{
  read_to, clear, terminate, read_text, pb_dec_bytes, pb_dec_string, pb_dec_fixed_length_bytes,
}
use solta.Pb.Message.Decoding.{pb_decoder, stop}
use solta.Pb.Message.Keeps.{Left, Keeps-on_stream, Keeps-put}
use solta.Pb.Message.ValueSafety.{
  Takes-pb_decode_svarint, Takes-pb_decode_fixed32, Takes-pb_decode_fixed64,
}
use solta.Pb.Message.FieldSafety.{Keeps-value}
use solta.Pb.Message.Sound.{IsValue}
use solta.Pb.Message.Confined.{
  Same, clear-Same, Kept, Confined, Confined-on_stream, Confined-stop, Confined-change,
  Confined-put,
}
use solta.Pb.Message.Confined.{Confined-bind, Confined-test, Confined-read_to}

module _ {S : Type 0} (dest : ℕ) (u : dest < 2 ^ 64) where
  Confined-put_checked :
      (size n clamped value : ℕ)
      → n ≤ size
      → Confined {S = S} dest size (put_checked n dest clamped value)
  Confined-put_checked size n clamped value le =
      Confined-bind dest size 0 (put n dest clamped) _ (Keeps-put n dest clamped)
        (Confined-put dest size n clamped u le)
        λ _.
          Confined-test dest size (clamped == value) (pure tt) (stop integer_too_large)
            (λ _ slack s safe x h far. refl) (λ _. Confined-stop dest size integer_too_large)

  Confined-put_sized :
      (cast : ℕ → ℕ → ℕ) (size value : ℕ)
      → Confined {S = S} dest size (put_sized cast size dest value)
  Confined-put_sized cast size value =
      Confined-test dest size (size == 8) _ _
        (λ e. Confined-put_checked size 8 value value (ground arith))
        λ _.
          Confined-test dest size (size == 4) _ _
            (λ e. Confined-put_checked size 4 (cast 4 value) value (ground arith))
            λ _.
              Confined-test dest size (size == 2) _ _
                (λ e. Confined-put_checked size 2 (cast 2 value) value (ground arith))
                λ _.
                  Confined-test dest size (size == 1) _ _
                    (λ e. Confined-put_checked size 1 (cast 1 value) value (ground arith))
                    λ _. Confined-stop dest size invalid_data_size

  Confined-read :
      (size : ℕ) (m : M (Istream S) ℕ) (f : ℕ → M (Decoding S) (Unit {0}))
      → Takes 1 m
      → ((value : ℕ) → Confined dest size (f value))
      → Confined dest size (on_stream m >>= f)
  Confined-read size m f takes later =
      Confined-bind dest size 1 (on_stream m) f (Keeps-on_stream 1 m takes)
        (Confined-on_stream dest size m) later

  Confined-pb_dec_varint : (size : ℕ) → Confined {S = S} dest size (pb_dec_varint size dest)
  unfolding pb_dec_varint
  Confined-pb_dec_varint size =
      Confined-read size pb_decode_varint _ Takes-pb_decode_varint
        (λ value. Confined-put_sized sign_extend size _)

  Confined-pb_dec_uvarint : (size : ℕ) → Confined {S = S} dest size (pb_dec_uvarint size dest)
  unfolding pb_dec_uvarint
  Confined-pb_dec_uvarint size =
      Confined-read size pb_decode_varint _ Takes-pb_decode_varint
        (λ value. Confined-put_sized (λ n v. v % 2 ^ (8 * n)) size value)

  Confined-pb_dec_svarint : (size : ℕ) → Confined {S = S} dest size (pb_dec_svarint size dest)
  unfolding pb_dec_svarint
  Confined-pb_dec_svarint size =
      Confined-read size pb_decode_svarint _ Takes-pb_decode_svarint
        (λ value. Confined-put_sized sign_extend size value)

  Confined-pb_dec_fixed32 : (size : ℕ) → 4 ≤ size → Confined {S = S} dest size (pb_dec_fixed32 dest)
  unfolding pb_dec_fixed32
  Confined-pb_dec_fixed32 size le =
      Confined-read size pb_decode_fixed32 _
        (Takes-fewer 4 1 _ (omega arith) Takes-pb_decode_fixed32)
        (λ value. Confined-put dest size 4 value u le)

  Confined-pb_dec_fixed64 : (size : ℕ) → 8 ≤ size → Confined {S = S} dest size (pb_dec_fixed64 dest)
  unfolding pb_dec_fixed64
  Confined-pb_dec_fixed64 size le =
      Confined-read size pb_decode_fixed64 _
        (Takes-fewer 8 1 _ (omega arith) Takes-pb_decode_fixed64)
        (λ value. Confined-put dest size 8 value u le)

  -- The length and the bytes behind it.
  Confined-pb_dec_bytes :
      (field : Field) → Confined {S = S} dest field.data_size (pb_dec_bytes field dest)
  unfolding pb_dec_bytes
  Confined-pb_dec_bytes field =
      Confined-read field.data_size pb_decode_varint32 _ Takes-pb_decode_varint32 λ size.
        Confined-test dest field.data_size (ltb pb_size_max size) _ _
          (λ _. Confined-stop dest field.data_size bytes_overflow)
          λ short.
            Confined-test dest field.data_size (ltb (alloc_size size) size) _ _
              (λ _. Confined-stop dest field.data_size size_too_large)
              λ _.
                Confined-test dest field.data_size (atype field.type == Atype.pointer) _ _
                  (λ _. Confined-stop dest field.data_size no_malloc_support)
                  λ _.
                    Confined-test dest field.data_size (ltb field.data_size (alloc_size size)) _ _
                      (λ _. Confined-stop dest field.data_size bytes_overflow)
                      λ fits.
                        Confined-bind dest field.data_size 0 (put 4 dest size) _
                          (Keeps-put 4 dest size)
                          (Confined-put dest field.data_size 4 size u (ground arith))
                          (λ _.
                            Confined-read_to dest field.data_size (offset dest 4) size (omega arith)
                              (λ x h far. ground arith))

  Confined-read_text : (size n : ℕ) → n + 1 ≤ size → Confined {S = S} dest size (read_text dest n)
  Confined-read_text size n le slack s safe =
      go (read_to dest n s)
        (Confined-read_to dest size dest n u (λ x h far. omega arith) slack s safe)
    where
      ended : (mem : Memory) → Same dest size mem (store 1 (offset dest n) 0 mem)
      ended mem x k far = store-outside 1 (offset dest n) 0 x mem (omega arith) k (ground arith)

      go :
          (r : Res (Decoding S) (Unit {0}))
          → Kept dest size s.memory r
          → Kept dest size s.memory (terminate (offset dest n) r)
      go (done a t) h = λ x k far. ended t.memory x k far ∙ h x k far
      go (failed t) h = λ x k far. ended t.memory x k far ∙ h x k far
      go fault h = tt

  Confined-pb_dec_string :
      (field : Field) → Confined {S = S} dest field.data_size (pb_dec_string field dest)
  unfolding pb_dec_string
  Confined-pb_dec_string field =
      Confined-read field.data_size pb_decode_varint32 _ Takes-pb_decode_varint32 λ size.
        Confined-test dest field.data_size (ltb ((size + 1) % 2 ^ 32) size) _ _
          (λ _. Confined-stop dest field.data_size size_too_large)
          λ whole.
            Confined-test dest field.data_size (atype field.type == Atype.pointer) _ _
              (λ _. Confined-stop dest field.data_size no_malloc_support)
              λ _.
                Confined-test dest field.data_size (ltb field.data_size ((size + 1) % 2 ^ 32)) _ _
                  (λ _. Confined-stop dest field.data_size string_overflow)
                  λ fits. Confined-read_text field.data_size size (ground arith)

  Confined-pb_dec_fixed_length_bytes :
      (field : Field) → Confined {S = S} dest field.data_size (pb_dec_fixed_length_bytes field dest)
  unfolding pb_dec_fixed_length_bytes
  Confined-pb_dec_fixed_length_bytes field =
      Confined-read field.data_size pb_decode_varint32 _ Takes-pb_decode_varint32 λ size.
        Confined-test dest field.data_size (ltb pb_size_max size) _ _
          (λ _. Confined-stop dest field.data_size bytes_overflow)
          λ _.
            Confined-test dest field.data_size (size == 0) _ _
              (λ _.
                Confined-change dest field.data_size (clear field.data_size dest)
                  (λ mem. clear-Same field.data_size dest mem u))
              λ _.
                Confined-test dest field.data_size (size == field.data_size) _ _
                  (λ _.
                    Confined-read_to dest field.data_size dest field.data_size u (λ x h far. far))
                  (λ _. Confined-stop dest field.data_size incorrect_fixed_length)

  -- The decoder of a static or pointer field of a number, a text or bytes, at an address of 64 bits,
  -- where a fixed32 field has 4 bytes at least and a fixed64 field 8: on a safe stream it ends, and
  -- leaves every byte of the memory that is not among the `data_size` bytes of the field as it was,
  -- whether it succeeds or fails and whatever length the stream gives; if it succeeds, it has taken a
  -- byte at least.
  pub pb_decoder-Kept :
      (sub sub_noinit : ℕ → ℕ → M (Decoding S) (Unit {0})) (field : Field) (slack : ℕ)
      (s : Decoding S)
      → IsValue field
      → (ltype field.type ≡ Ltype.fixed32 → 4 ≤ field.data_size)
      → (ltype field.type ≡ Ltype.fixed64 → 8 ≤ field.data_size)
      → IsSafe slack s.stream
      → Kept dest field.data_size s.memory (pb_decoder sub sub_noinit field dest s)
        × Left slack 1 s.stream.bytes_left (pb_decoder sub sub_noinit field dest s)
  unfolding pb_decoder
  pb_decoder-Kept sub sub_noinit field slack s value wide32 wide64 safe =
      (decoder slack s safe, Keeps-value sub sub_noinit field dest value slack s safe)
    where
      known : (ltype field.type < Ltype.submessage) ⊎ (ltype field.type ≡ Ltype.fixed_length_bytes)
      known = value.0

      decoder : Confined dest field.data_size (pb_decoder sub sub_noinit field dest)
      decoder =
          let l = ltype field.type in
          let size = field.data_size in
          Confined-test dest size (l == Ltype.varint) _ _ (λ _. Confined-pb_dec_varint size)
            λ h0.
              Confined-test dest size (l == Ltype.uvarint) _ _ (λ _. Confined-pb_dec_uvarint size)
                λ h1.
                  Confined-test dest size (l == Ltype.svarint) _ _
                    (λ _. Confined-pb_dec_svarint size)
                    λ h2.
                      Confined-test dest size (l == Ltype.fixed32) _ _
                        (λ e. Confined-pb_dec_fixed32 size (wide32 (==→eq l Ltype.fixed32 e)))
                        λ h3.
                          Confined-test dest size (l == Ltype.fixed64) _ _
                            (λ e. Confined-pb_dec_fixed64 size (wide64 (==→eq l Ltype.fixed64 e)))
                            λ h4.
                              Confined-test dest size (l == Ltype.bytes) _ _
                                (λ _. Confined-pb_dec_bytes field)
                                λ h5.
                                  Confined-test dest size (l == Ltype.string) _ _
                                    (λ _. Confined-pb_dec_string field)
                                    λ h6.
                                      Confined-test dest size (l == Ltype.submessage) _ _
                                        (λ h7. absurd (ground (arith, known)))
                                        λ h7.
                                          Confined-test dest size (l == Ltype.fixed_length_bytes) _
                                            _ (λ _. Confined-pb_dec_fixed_length_bytes field)
                                            λ h9. absurd (ground (arith, known))
