-- ===== src/Pb/Encode/Scalar.antt =====
-- The encoders that write one scalar of a message: `pb_enc_varint`, `pb_enc_uvarint`,
-- `pb_enc_svarint`, `pb_enc_fixed32` and `pb_enc_fixed64` of SOLTA/Pods/nanopb/pb_encode.c. The
-- arguments are `field->data_size`, `src` and the memory that the message lies in.
use solta.Base.{ℕ, ◌==◌, if◌then◌else◌, M}
use solta.Pb.Errmsg.{invalid_data_size}
use solta.Pb.Ostream.{Ostream, return_error}
use solta.Pb.Memory.{Memory, load}
use solta.Pb.Decode.Scalar.{sign_extend}
use solta.Pb.Encode.{pb_encode_varint, pb_encode_svarint, pb_encode_fixed32, pb_encode_fixed64}

module _ {S : Type 0} where
  -- The choice by `field->data_size`; `widen` is the conversion of so many bytes to 64 bits.
  abbrev pub encode_sized :
      (ℕ → M (Ostream S) (Unit {0})) → (ℕ → ℕ → ℕ) → ℕ → ℕ → Memory → M (Ostream S) (Unit {0})
  encode_sized encode widen data_size src mem =
      if data_size == 1
      then encode (widen 1 (load 1 src mem))
      else if data_size == 2
      then encode (widen 2 (load 2 src mem))
      else if data_size == 4
      then encode (widen 4 (load 4 src mem))
      else if data_size == 8
      then encode (load 8 src mem)
      else return_error invalid_data_size

  unfoldable pub pb_enc_varint : ℕ → ℕ → Memory → M (Ostream S) (Unit {0})
  pb_enc_varint = encode_sized pb_encode_varint sign_extend

  unfoldable pub pb_enc_uvarint : ℕ → ℕ → Memory → M (Ostream S) (Unit {0})
  pb_enc_uvarint = encode_sized pb_encode_varint (λ size value. value)

  unfoldable pub pb_enc_svarint : ℕ → ℕ → Memory → M (Ostream S) (Unit {0})
  pb_enc_svarint = encode_sized pb_encode_svarint sign_extend

  unfoldable pub pb_enc_fixed32 : ℕ → Memory → M (Ostream S) (Unit {0})
  pb_enc_fixed32 src mem = pb_encode_fixed32 (load 4 src mem)

  unfoldable pub pb_enc_fixed64 : ℕ → Memory → M (Ostream S) (Unit {0})
  pb_enc_fixed64 src mem = pb_encode_fixed64 (load 8 src mem)
