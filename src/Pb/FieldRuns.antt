-- ===== src/Pb/FieldRuns.antt =====
-- Concrete runs of the field iterator and of the scalar fields, and their theorems at concrete inputs.
use solta.Base.{M, ℕ, ◌-◌, ◌%◌, ◌^◌, ◌<◌, ◌≡◌, refl, arith, [], ◌∷◌, none, some}
use solta.Base.{true}
use solta.Pb.Ostream.{Ostream}
use solta.Pb.Memory.{Memory, IsMemory}
use solta.Pb.Decode.Scalar.{Decoding, pb_dec_varint, pb_dec_uvarint, pb_dec_svarint}
use solta.Pb.Encode.Scalar.{pb_enc_varint, pb_enc_uvarint, pb_enc_svarint}
use solta.Pb.ScalarTrip.{Width, two, four, Carries, pb_dec_varint-pb_enc_varint}
use solta.Pb.ScalarTrip.{pb_dec_uvarint-pb_enc_uvarint, pb_dec_svarint-pb_enc_svarint}
use solta.Pb.Field.{Field, null}
use solta.Pb.Field.Iter.{pb_field_iter_next, pb_field_iter_find, find_rounds}
use solta.Pb.Field.Iter.Place.{standing, next-standing}
use solta.Pb.Field.Iter.Find.{Searches, pb_field_iter_find-Searches}

-- A required uint32 and an optional one with its `has_` flag.
abbrev number : Field
number = record {
  tag = 1;
  type = 0x01;
  data_offset = 0;
  size_offset = 0;
  data_size = 4;
  array_size = 0;
  ptr = null;
}

abbrev extra : Field
extra = record {
  tag = 2;
  type = 0x11;
  data_offset = 4;
  size_offset = 2 ^ 64 - 4;
  data_size = 4;
  array_size = 0;
  ptr = null;
}

next-standing_example : pb_field_iter_next (standing (number ∷ extra ∷ []) 4096 0 4096) ≡ (
  standing
      (number ∷ extra ∷ [])
      4096
      1
      (pb_field_iter_next (standing (number ∷ extra ∷ []) 4096 0 4096)).0.p_size,
  true,
)
next-standing_example =
    next-standing number (extra ∷ []) 4096 0 4096 (omega arith, (omega arith, tt)) (omega arith)

pb_field_iter_find-Searches_example :
    Searches
      (λ j. j < 2)
      (number ∷ extra ∷ [])
      4096
      1
      1
      (pb_field_iter_find 1 (standing (number ∷ extra ∷ []) 4096 1 4100))
pb_field_iter_find-Searches_example =
    pb_field_iter_find-Searches number (extra ∷ []) 4096 1 1 4100 (omega arith, (omega arith, tt))
      (omega arith)

-- The search for tag 1 from the second entry wraps to the first.
find_number :
    pb_field_iter_find 1 (standing (number ∷ extra ∷ []) 4096 1 4100)
    ≡ some (standing (number ∷ extra ∷ []) 4096 0 4096, true)
unfolding pb_field_iter_find find_rounds pb_field_iter_next solta.Pb.Field.Iter.pb_field_iter_begin
find_number = refl

-- A memory whose bytes count up, and one of zeros.
abbrev ramp : Memory
ramp x = x % 256

abbrev blank : Memory
blank x = 0

ramp-IsMemory : IsMemory ramp
ramp-IsMemory x = omega arith

abbrev CarriesScalar : Width → M (Ostream ℕ) (Unit {0}) → M (Decoding ℕ) (Unit {0}) → Type 0
CarriesScalar w =
    Carries [] (7 ∷ []) 10 10 0 1 none none (omega arith) w 254 4096 ramp blank ramp-IsMemory
      (omega arith) (omega arith) (omega arith) (omega arith)

pb_dec_uvarint-pb_enc_uvarint_example :
    CarriesScalar two (pb_enc_uvarint 2 254 ramp) (pb_dec_uvarint 2 4096)
pb_dec_uvarint-pb_enc_uvarint_example =
    pb_dec_uvarint-pb_enc_uvarint [] (7 ∷ []) 10 10 0 1 none none (omega arith) two 254 4096 ramp
      blank ramp-IsMemory (omega arith) (omega arith) (omega arith) (omega arith)

pb_dec_varint-pb_enc_varint_example :
    CarriesScalar two (pb_enc_varint 2 254 ramp) (pb_dec_varint 2 4096)
pb_dec_varint-pb_enc_varint_example =
    pb_dec_varint-pb_enc_varint [] (7 ∷ []) 10 10 0 1 none none (omega arith) two 254 4096 ramp
      blank ramp-IsMemory (omega arith) (omega arith) (omega arith) (omega arith)

pb_dec_svarint-pb_enc_svarint_example :
    CarriesScalar four (pb_enc_svarint 4 254 ramp) (pb_dec_svarint 4 4096)
pb_dec_svarint-pb_enc_svarint_example =
    pb_dec_svarint-pb_enc_svarint [] (7 ∷ []) 10 10 0 1 none none (omega arith) four 254 4096 ramp
      blank ramp-IsMemory (omega arith) (omega arith) (omega arith) (omega arith)
