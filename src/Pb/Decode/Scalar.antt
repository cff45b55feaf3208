-- ===== src/Pb/Decode/Scalar.antt =====
-- The decoders that store one scalar into a message: `pb_dec_varint`, `pb_dec_uvarint`,
-- `pb_dec_svarint`, `pb_dec_fixed32` and `pb_dec_fixed64` of SOLTA/Pods/nanopb/pb_decode.c.
use solta.Base.{
  ℕ, ◌+◌, ◌-◌, ◌*◌, ◌%◌, ◌^◌, ltb, ◌==◌, if◌then◌else◌, Res, done, failed, fault, M, pure, ◌>>=◌,
  ◌>>◌,
}
use solta.Pb.Errmsg.{invalid_data_size, integer_too_large}
use solta.Pb.Istream.{Istream, return_error}
use solta.Pb.Memory.{Memory, store}
use solta.Pb.Varint.{pb_decode_varint}
use solta.Pb.Decode.{pb_decode_svarint, pb_decode_fixed32, pb_decode_fixed64}

-- A stream, and the memory that the message lies in.
pub record Decoding (S : Type 0) : Type 0 where
  pub stream : Istream S
  pub memory : Memory

-- `(intN_t)value`, as the pattern of an int64_t, for N = 8 * size.
abbrev pub sign_extend : ℕ → ℕ → ℕ
sign_extend size value =
    let low = value % 2 ^ (8 * size) in
    if ltb low (2 ^ (8 * size - 1)) then low else low + 2 ^ 64 - 2 ^ (8 * size)

module _ {S : Type 0} where
  abbrev pub with_memory : {A : Type 0} → Memory → Res (Istream S) A → Res (Decoding S) A
  with_memory mem (done a t) = done a (record { stream = t; memory = mem })
  with_memory mem (failed t) = failed (record { stream = t; memory = mem })
  with_memory mem fault = fault

  -- A call that does not touch the message.
  abbrev pub on_stream : {A : Type 0} → M (Istream S) A → M (Decoding S) A
  on_stream m s = with_memory s.memory (m s.stream)

  -- `*(T*)dest = value`, for a type of `size` bytes.
  abbrev pub put : ℕ → ℕ → ℕ → M (Decoding S) (Unit {0})
  put size dest value s =
      done tt (record s { memory = store size dest (value % 2 ^ (8 * size)) s.memory })

  -- `clamped = *(T*)dest = (T)value`, where `clamped` is what the cast gives, and the check that
  -- follows it.
  abbrev pub put_checked : ℕ → ℕ → ℕ → ℕ → M (Decoding S) (Unit {0})
  put_checked size dest clamped value =
      put size dest clamped
      >> (if clamped == value then pure tt else on_stream (return_error integer_too_large))

  -- The choice by `field->data_size`, for the `cast` to so many bytes.
  abbrev pub put_sized : (ℕ → ℕ → ℕ) → ℕ → ℕ → ℕ → M (Decoding S) (Unit {0})
  put_sized cast data_size dest value =
      if data_size == 8
      then put_checked 8 dest value value
      else if data_size == 4
      then put_checked 4 dest (cast 4 value) value
      else if data_size == 2
      then put_checked 2 dest (cast 2 value) value
      else if data_size == 1
      then put_checked 1 dest (cast 1 value) value
      else on_stream (return_error invalid_data_size)

  unfoldable pub pb_dec_varint : ℕ → ℕ → M (Decoding S) (Unit {0})
  pb_dec_varint data_size dest = do
    value ← on_stream pb_decode_varint
    put_sized sign_extend data_size dest (if data_size == 8 then value else sign_extend 4 value)

  unfoldable pub pb_dec_uvarint : ℕ → ℕ → M (Decoding S) (Unit {0})
  pb_dec_uvarint data_size dest = do
    value ← on_stream pb_decode_varint
    put_sized (λ size v. v % 2 ^ (8 * size)) data_size dest value

  unfoldable pub pb_dec_svarint : ℕ → ℕ → M (Decoding S) (Unit {0})
  pb_dec_svarint data_size dest = do
    value ← on_stream pb_decode_svarint
    put_sized sign_extend data_size dest value

  unfoldable pub pb_dec_fixed32 : ℕ → M (Decoding S) (Unit {0})
  pb_dec_fixed32 dest = do value ← on_stream pb_decode_fixed32; put 4 dest value

  unfoldable pub pb_dec_fixed64 : ℕ → M (Decoding S) (Unit {0})
  pb_dec_fixed64 dest = do value ← on_stream pb_decode_fixed64; put 8 dest value
