-- ===== src/Pb/Varint.antt =====
-- Variable-length integers and what is read by them: `pb_decode_varint32`, `pb_decode_varint`,
-- `pb_skip_varint`, `pb_skip_string`, `pb_decode_tag`, `pb_skip_field` and `read_raw_value` of
-- SOLTA/Pods/nanopb/pb_decode.c.
pub mod Safety
pub mod Value
pub mod Raw
pub mod Bounds
use solta.Base.{ℕ, zero, suc, ◌+◌, ◌-◌, ◌*◌, ◌/◌, ◌%◌, ◌^◌, bit_and, bit_or, ltb, leb, ◌==◌}
use solta.Base.{if◌then◌else◌, Bool, true, false, List, [], ◌∷◌, ◌++◌}
use solta.Base.{Res, done, failed, fault, crash, M, pure, and_then, ◌>>=◌, ◌>>◌}
use solta.Pb.Errmsg.{Errmsg, varint_overflow, invalid_wire_type}
use solta.Pb.Istream.{Istream, Dest, null, into, return_error, pb_read, pb_readbyte, first_byte}

-- What `pb_decode_tag` returns: true with the wire type and the field number, or false with `*eof`
-- set or clear. `broken` is the `fault` of `Res`.
pub data TagRead (S : Type 0) : Type 0 where
  tagged : ℕ → ℕ → Istream S → TagRead S
  eof bad : Istream S → TagRead S
  broken : TagRead S

module _ {S : Type 0} where
  -- The `do … while (byte & 0x80)` of both varint decoders: `width` is 32 or 64, and `bitpos` and
  -- `result` are the loop's variables. Each round raises `bitpos` by 7, and the loop ends when that
  -- reaches `width`, so width / 7 + 2 rounds are enough.
  unfoldable pub varint_rounds : ℕ → ℕ → ℕ → ℕ → M (Istream S) ℕ
  varint_rounds width zero bitpos result = crash
  varint_rounds width (suc fuel) bitpos result =
      let round = pb_readbyte >>= λ byte.
      let result' = bit_or result (bit_and byte 0x7F * 2 ^ bitpos % 2 ^ width) in
      let more = varint_rounds width fuel (bitpos + 7) result' in
      if bit_and byte 0x80 == 0 then pure result' else more in
      if leb width bitpos then return_error varint_overflow else round

  unfoldable pub pb_decode_varint32 : M (Istream S) ℕ
  pb_decode_varint32 = do
    byte ← pb_readbyte
    if bit_and byte 0x80 == 0 then pure byte else varint_rounds 32 6 7 (bit_and byte 0x7F)

  unfoldable pub pb_decode_varint : M (Istream S) ℕ
  pb_decode_varint = varint_rounds 64 11 0 0

  -- The loop of `pb_skip_varint`.
  unfoldable pub skip_rounds : ℕ → M (Istream S) (Unit {0})
  skip_rounds zero = crash
  skip_rounds (suc fuel) = do
    bytes ← pb_read into 1
    let more = skip_rounds fuel
    if bit_and (first_byte bytes) 0x80 == 0 then pure tt else more

  -- Each round takes a byte, so one round more than `bytes_left` is enough.
  unfoldable pub pb_skip_varint : M (Istream S) (Unit {0})
  pb_skip_varint s = skip_rounds (s.bytes_left + 1) s

  unfoldable pub pb_skip_string : M (Istream S) (Unit {0})
  pb_skip_string = do len ← pb_decode_varint32; pb_read null len; pure tt

  abbrev pub tag_outcome : Res (Istream S) ℕ → TagRead S
  tag_outcome (done temp t) = if temp == 0 then eof t else tagged (bit_and temp 7) (temp / 2 ^ 3) t
  tag_outcome (failed t) = if t.bytes_left == 0 then eof t else bad t
  tag_outcome fault = broken

  unfoldable pub pb_decode_tag : Istream S → TagRead S
  pb_decode_tag s = tag_outcome (pb_decode_varint32 s)

  -- The argument is the number of the wire type: VARINT 0, 64BIT 1, STRING 2 and 32BIT 5.
  unfoldable pub pb_skip_field : ℕ → M (Istream S) (Unit {0})
  pb_skip_field wire_type =
      if wire_type == 0
      then pb_skip_varint
      else if wire_type == 1
      then (pb_read null 8 >> pure tt)
      else if wire_type == 2
      then pb_skip_string
      else if wire_type == 5
      then (pb_read null 4 >> pure tt)
      else return_error invalid_wire_type

  -- The varint case of `read_raw_value`; the number is how many bytes `buf` has room for still.
  unfoldable pub raw_varint : ℕ → M (Istream S) (List ℕ)
  raw_varint zero = λ s. failed s
  raw_varint (suc room) = do
    bytes ← pb_read into 1
    let byte = first_byte bytes
    let more = raw_varint room >>= λ later. pure (byte ∷ later)
    if bit_and byte 0x80 == 0 then pure (byte ∷ []) else more

  -- The bytes that `buf` and `*size` hold on return; `max_size` is `*size` on call, the size of `buf`.
  -- The code compares it with varints only: reading a fixed-width value goes past a smaller buffer,
  -- which is a fault here whatever the stream holds.
  unfoldable pub read_raw_value : ℕ → ℕ → M (Istream S) (List ℕ)
  read_raw_value wire_type max_size =
      if wire_type == 0
      then raw_varint max_size
      else if wire_type == 1
      then (if ltb max_size 8 then crash else pb_read into 8)
      else if wire_type == 5
      then (if ltb max_size 4 then crash else pb_read into 4)
      else return_error invalid_wire_type
