-- ===== src/Pb/Message/Scalars.antt =====
-- The writers of numbers, tags and byte strings agree with themselves.
use solta.Base.{ℕ, zero, suc, ◌+◌, ◌%◌, ◌^◌, ◌≡◌, refl, sym, ap, ◌∙◌, arith}
use solta.Base.{Bool-cases, length, List, [], ◌∷◌, inl, inr, Option, none, some}
use solta.Base.{M, done, ◌==◌, ◌&&◌, ltb, leb}
use solta.Pb.Errmsg.{Errmsg}
use solta.Pb.Ostream.{Ostream, pb_write, return_error}
use solta.Pb.Ostream.Laws.{filling, write-filling}
use solta.Pb.Memory.{Memory, load}
use solta.Pb.Field.Atype
use solta.Pb.Field.{Field, atype}
use solta.Pb.Field.Iter.{offset}
use solta.Pb.Encode.{varint_groups, clear_last, write_groups, pb_encode_varint, pb_encode_svarint}
use solta.Pb.Encode.{pb_encode_fixed32, pb_encode_fixed64, pb_encode_tag, pb_encode_string}
use solta.Pb.Encode.Scalar.{encode_sized, pb_enc_varint, pb_enc_uvarint, pb_enc_svarint}
use solta.Pb.Encode.Scalar.{pb_enc_fixed32, pb_enc_fixed64}
use solta.Pb.Encode.Bytes.{bytes_at, alloc_size, pb_enc_bytes, pb_enc_string}
use solta.Pb.Encode.Bytes.{pb_enc_fixed_length_bytes}
use solta.Pb.Decode.Scalar.{sign_extend}
use solta.Pb.Message.Encoding.{tag_or_error, pb_encode_tag_for_field}
use solta.Pb.Message.Agree.{sizing_at, Emits, Agrees, then-Agrees, if-Agrees, crash-Agrees}

length-clear_last : (bytes : List ℕ) → length (clear_last bytes) ≡ length bytes
unfolding clear_last
length-clear_last [] = refl
length-clear_last (b ∷ []) = refl
length-clear_last (b ∷ c ∷ bytes) = omega (arith, length-clear_last (c ∷ bytes))

pub length-bytes_at : (n a : ℕ) (mem : Memory) → length (bytes_at n a mem) ≡ n
unfolding bytes_at
length-bytes_at zero a mem = refl
length-bytes_at (suc n) a mem = omega (arith, length-bytes_at n _ mem)

module _ {S : Type 0} where
  -- Writers of a stream alone.
  abbrev pub AgreesAlone : M (Ostream S) (Unit {0}) → Type 0
  AgreesAlone = Agrees (λ (s : Ostream S). s)

  pub pb_write-Emits :
      (buf : List ℕ) (count : ℕ)
      → length buf ≡ count
      → Emits (λ (s : Ostream S). s) (pb_write buf count) buf
  unfolding pb_write
  pb_write-Emits buf count e = record {
    counts = λ written u. ap (λ n. done tt (sizing_at ((written + n) % 2 ^ 64))) (sym e);
    writes = λ stored room limit written h k u.
        ap (λ n. pb_write buf n (filling stored room limit written none)) (sym e)
        ∙ write-filling buf stored room limit written none h k u;
    fits = λ stored room limit written t r ok.
        elim (Bool-cases (ltb limit ((written + count) % 2 ^ 64))) [
          | inl full ↦ absurd (ground (arith, full, ok))
          | inr below ↦ elim (Bool-cases (leb count room && leb count (length buf))) [
            | inl inside ↦
                (ground (arith, e, inside), ground (arith, e, inside, below, r.0, r.1, r.2))
            | inr outside ↦ absurd (ground (arith, below, outside, ok))
          ]
        ];
  }

  pub pb_write-Agrees :
      (buf : List ℕ) (count : ℕ) → length buf ≡ count → AgreesAlone (pb_write buf count)
  pb_write-Agrees buf count e = inl (buf, pb_write-Emits buf count e)

  return_error-Agrees : (e : Errmsg) → AgreesAlone (return_error e)
  return_error-Agrees e =
      inr
        record { unsized = λ written t u h. cc; unwritten = λ stored room limit written t r h. cc }

  write_groups-Agrees : (groups : Option (List ℕ)) → AgreesAlone (write_groups groups)
  write_groups-Agrees none = crash-Agrees (λ s. s)
  write_groups-Agrees (some bytes) =
      pb_write-Agrees (clear_last bytes) (length bytes) (length-clear_last bytes)

  pub pb_encode_varint-Agrees : (value : ℕ) → AgreesAlone (pb_encode_varint value)
  unfolding pb_encode_varint
  pb_encode_varint-Agrees value =
      if-Agrees (λ s. s) (leb value 0x7F) _ _ (pb_write-Agrees (value % 256 ∷ []) 1 refl)
        (write_groups-Agrees (varint_groups 10 value))

  pb_encode_svarint-Agrees : (value : ℕ) → AgreesAlone (pb_encode_svarint value)
  unfolding pb_encode_svarint
  pb_encode_svarint-Agrees value = pb_encode_varint-Agrees _

  pub pb_encode_tag-Agrees : (wiretype number : ℕ) → AgreesAlone (pb_encode_tag wiretype number)
  unfolding pb_encode_tag
  pb_encode_tag-Agrees wiretype number = pb_encode_varint-Agrees _

  pb_encode_string-Agrees :
      (buffer : List ℕ) (size : ℕ)
      → length buffer ≡ size
      → AgreesAlone (pb_encode_string buffer size)
  unfolding pb_encode_string
  pb_encode_string-Agrees buffer size e =
      then-Agrees (λ s. s) (pb_encode_varint size) (pb_write buffer size)
        (pb_encode_varint-Agrees size) (pb_write-Agrees buffer size e)

  tag_or_error-Agrees : (field : Field) (w : Option ℕ) → AgreesAlone (tag_or_error field w)
  tag_or_error-Agrees field none = return_error-Agrees _
  tag_or_error-Agrees field (some wiretype) = pb_encode_tag-Agrees wiretype field.tag

  pub pb_encode_tag_for_field-Agrees : (field : Field) → AgreesAlone (pb_encode_tag_for_field field)
  unfolding pb_encode_tag_for_field
  pb_encode_tag_for_field-Agrees field = tag_or_error-Agrees field _

  encode_sized-Agrees :
      (encode : ℕ → M (Ostream S) (Unit {0})) (widen : ℕ → ℕ → ℕ) (data_size src : ℕ) (mem : Memory)
      → ((value : ℕ) → AgreesAlone (encode value))
      → AgreesAlone (encode_sized encode widen data_size src mem)
  encode_sized-Agrees encode widen data_size src mem h =
      if-Agrees (λ s. s) (data_size == 1) _ _ (h _)
        (if-Agrees (λ s. s) (data_size == 2) _ _ (h _)
          (if-Agrees (λ s. s) (data_size == 4) _ _ (h _)
            (if-Agrees (λ s. s) (data_size == 8) _ _ (h _) (return_error-Agrees _))))

  pub pb_enc_varint-Agrees :
      (size src : ℕ) (mem : Memory) → AgreesAlone (pb_enc_varint size src mem)
  unfolding pb_enc_varint
  pb_enc_varint-Agrees size src mem =
      encode_sized-Agrees _ sign_extend size src mem pb_encode_varint-Agrees

  pub pb_enc_uvarint-Agrees :
      (size src : ℕ) (mem : Memory) → AgreesAlone (pb_enc_uvarint size src mem)
  unfolding pb_enc_uvarint
  pb_enc_uvarint-Agrees size src mem =
      encode_sized-Agrees _ (λ size value. value) size src mem pb_encode_varint-Agrees

  pub pb_enc_svarint-Agrees :
      (size src : ℕ) (mem : Memory) → AgreesAlone (pb_enc_svarint size src mem)
  unfolding pb_enc_svarint
  pb_enc_svarint-Agrees size src mem =
      encode_sized-Agrees _ sign_extend size src mem pb_encode_svarint-Agrees

  -- The words of fixed width, with their length.
  pub pb_enc_fixed32-Emits :
      (src : ℕ) (mem : Memory)
      → (bytes : List ℕ) × Emits (λ (s : Ostream S). s) (pb_enc_fixed32 src mem) bytes
        × (length bytes ≡ 4)
  unfolding pb_enc_fixed32 pb_encode_fixed32
  pb_enc_fixed32-Emits src mem = (_, pb_write-Emits _ 4 refl, refl)

  pub pb_enc_fixed64-Emits :
      (src : ℕ) (mem : Memory)
      → (bytes : List ℕ) × Emits (λ (s : Ostream S). s) (pb_enc_fixed64 src mem) bytes
        × (length bytes ≡ 8)
  unfolding pb_enc_fixed64 pb_encode_fixed64
  pb_enc_fixed64-Emits src mem = (_, pb_write-Emits _ 8 refl, refl)

  pub pb_enc_bytes-Agrees :
      (field : Field) (src : ℕ) (mem : Memory) → AgreesAlone (pb_enc_bytes field src mem)
  unfolding pb_enc_bytes
  pb_enc_bytes-Agrees field src mem =
      if-Agrees (λ s. s) (src == 0) _ _ (pb_encode_string-Agrees [] 0 refl)
        (if-Agrees (λ s. s)
          (atype field.type == Atype.static && ltb field.data_size (alloc_size (load 4 src mem))) _
          _ (return_error-Agrees _)
          (pb_encode_string-Agrees _ _ (length-bytes_at (load 4 src mem) (offset src 4) mem)))

  pub pb_enc_string-Agrees :
      (field : Field) (src : ℕ) (mem : Memory) → AgreesAlone (pb_enc_string field src mem)
  unfolding pb_enc_string
  pb_enc_string-Agrees field src mem = pb_encode_string-Agrees _ _ (length-bytes_at _ src mem)

  pub pb_enc_fixed_length_bytes-Agrees :
      (field : Field) (src : ℕ) (mem : Memory)
      → AgreesAlone (pb_enc_fixed_length_bytes field src mem)
  unfolding pb_enc_fixed_length_bytes
  pb_enc_fixed_length_bytes-Agrees field src mem =
      pb_encode_string-Agrees _ _ (length-bytes_at field.data_size src mem)
