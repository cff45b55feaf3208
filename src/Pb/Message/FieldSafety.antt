-- ===== src/Pb/Message/FieldSafety.antt =====
-- Decoding a field whose descriptor is sound keeps the stream safe.
use solta.Base.{
  ℕ, zero, suc, ◌+◌, ◌<◌, ◌≡◌, arith, ltb, leb, ◌==◌, Bool, true, false, Bool-cases, inl, inr,
  if◌then◌else◌, ◌&&◌,
}
use solta.Base.{M, ◌>>◌}
use solta.Pb.Errmsg.{array_overflow}
use solta.Pb.Istream.Safety.{IsSafe}
use solta.Pb.Memory.{load}
use solta.Pb.Field.Ltype
use solta.Pb.Field.Htype
use solta.Pb.Field.{Field, ltype, htype}
use solta.Pb.Field.Iter.{FieldIter, pos}
use solta.Pb.Decode.Scalar.{Decoding, put}
use solta.Pb.Message.Decoding.{Decoder, item, pb_decoder, pb_dec_submessage, close_after}
use solta.Pb.Message.Decoding.{packed_rounds, after_packed, packed_array, repeated_item}
use solta.Pb.Message.Keeps.{
  Left, Left-fewer, and_then-Left, Keeps, Keeps-stop, Keeps-put, Keeps-bind, Keeps-fewer,
  Keeps-test,
}
use solta.Pb.Message.Nested.{Keeps-in_substream, close_after-Closes, after_packed-Closes}
use solta.Pb.Message.ValueSafety.{
  Keeps-pb_dec_varint, Keeps-pb_dec_uvarint, Keeps-pb_dec_svarint, Keeps-pb_dec_fixed32,
  Keeps-pb_dec_fixed64,
}
use solta.Pb.Message.ValueSafety.{
  Keeps-pb_dec_bytes, Keeps-pb_dec_string, Keeps-pb_dec_fixed_length_bytes,
}
use solta.Pb.Message.Sound.{IsValue, IsPart}

module _ {S : Type 0} (sub sub_noinit : ℕ → ℕ → M (Decoding S) (Unit {0})) where
  pub Keeps-value :
      (field : Field) (dest : ℕ) → IsValue field → Keeps 1 (pb_decoder sub sub_noinit field dest)
  unfolding pb_decoder
  Keeps-value field dest (known, _) =
      let l = ltype field.type in
      Keeps-test 1 (l == Ltype.varint) _ _ (λ _. Keeps-pb_dec_varint field.data_size dest)
        λ h0.
          Keeps-test 1 (l == Ltype.uvarint) _ _ (λ _. Keeps-pb_dec_uvarint field.data_size dest)
            λ h1.
              Keeps-test 1 (l == Ltype.svarint) _ _ (λ _. Keeps-pb_dec_svarint field.data_size dest)
                λ h2.
                  Keeps-test 1 (l == Ltype.fixed32) _ _ (λ _. Keeps-pb_dec_fixed32 dest)
                    λ h3.
                      Keeps-test 1 (l == Ltype.fixed64) _ _ (λ _. Keeps-pb_dec_fixed64 dest)
                        λ h4.
                          Keeps-test 1 (l == Ltype.bytes) _ _ (λ _. Keeps-pb_dec_bytes field dest)
                            λ h5.
                              Keeps-test 1 (l == Ltype.string) _ _
                                (λ _. Keeps-pb_dec_string field dest)
                                λ h6.
                                  Keeps-test 1 (l == Ltype.submessage) _ _
                                    (λ h7. absurd (ground arith))
                                    λ h7.
                                      Keeps-test 1 (l == Ltype.fixed_length_bytes) _ _
                                        (λ _. Keeps-pb_dec_fixed_length_bytes field dest)
                                        λ h9. absurd (ground arith)

  message-decoder :
      (field : Field) (dest : ℕ)
      → ltype field.type ≡ Ltype.submessage
      → pb_decoder sub sub_noinit field dest ≡ pb_dec_submessage sub sub_noinit field dest
  unfolding pb_decoder
  message-decoder field dest h = rw h

  pub Keeps-part :
      (rank : ℕ → ℕ) (r : ℕ) (field : Field) (dest : ℕ)
      → ((b d : ℕ) → rank b < r → Keeps 0 (sub b d))
      → ((b d : ℕ) → rank b < r → Keeps 0 (sub_noinit b d))
      → IsPart rank r field
      → Keeps 1 (pb_decoder sub sub_noinit field dest)
  unfolding pb_dec_submessage
  Keeps-part rank r field dest keeps keeps_noinit part =
      rw (message-decoder field dest part.is_submessage, part.points)
        (Keeps-in_substream _ close_after (inner (htype field.type == Htype.repeated))
          close_after-Closes)
    where
      inner : (b : Bool) → Keeps 0 ((if b then sub else sub_noinit) part.inner dest)
      inner true = keeps part.inner dest part.below
      inner false = keeps_noinit part.inner dest part.below

module _ {S : Type 0} (func : Decoder S) where
  -- Each item of a packed array takes a byte at least, so that the loop ends.
  packed_rounds-Left :
      (iter : FieldIter)
      → ((dest : ℕ) → Keeps 1 (func (pos iter) dest))
      → (fuel slack : ℕ) (s : Decoding S) → IsSafe slack s.stream
      → s.stream.bytes_left < fuel
      → Left slack 0 s.stream.bytes_left (packed_rounds func iter fuel s)
  unfolding packed_rounds
  packed_rounds-Left iter keeps zero slack s safe enough = absurd (omega arith)
  packed_rounds-Left iter keeps (suc fuel) slack s safe enough =
      let size = load 4 iter.p_size s.memory in
      elim (Bool-cases (ltb 0 s.stream.bytes_left && ltb size (pos iter).array_size)) [
        | inl more ↦ rw more (
            Left-fewer slack 1 0 s.stream.bytes_left _ (omega arith) (
              and_then-Left slack 1 0 s.stream.bytes_left (func (pos iter) (item iter size) s) _
                (keeps (item iter size) slack s safe)
                (λ a t safe_t fewer.
                  packed_rounds-Left iter keeps fuel slack _ safe_t (omega arith))))
        | inr last ↦ rw last (safe, omega arith)
      ]

  pub Keeps-packed_array :
      (iter : FieldIter)
      → ((dest : ℕ) → Keeps 1 (func (pos iter) dest))
      → Keeps 0 (packed_array func iter)
  Keeps-packed_array iter keeps = Keeps-fewer 1 0 _ (omega arith) (
      Keeps-in_substream (λ s. packed_rounds func iter (s.stream.bytes_left + 1) s) after_packed
        (λ slack s safe.
          packed_rounds-Left iter keeps (s.stream.bytes_left + 1) slack s safe (omega arith))
        after_packed-Closes)

  pub Keeps-repeated_item :
      (iter : FieldIter)
      → ((dest : ℕ) → Keeps 1 (func (pos iter) dest))
      → Keeps 0 (repeated_item func iter)
  Keeps-repeated_item iter keeps slack s safe =
      let size = load 4 iter.p_size s.memory in
      elim (Bool-cases (leb (pos iter).array_size size)) [
        | inl full ↦ rw full (Keeps-stop 0 array_overflow slack s safe)
        | inr room ↦ rw room (
            Keeps-fewer 1 0 (put 4 iter.p_size (size + 1) >> func (pos iter) (item iter size))
              (omega arith)
              (Keeps-bind 0 1 (put 4 iter.p_size (size + 1)) _ (Keeps-put 4 iter.p_size (size + 1))
                (λ _. keeps (item iter size)))
              slack s safe)
      ]
