-- ===== src/Pb/Safety.antt =====
-- The safety of the stream readers of SOLTA/Pods/nanopb/pb_decode.c, each on any stream whose
-- callback keeps the rules of pb_decode.h.
use solta.Base.{ℕ, ◌≤◌, length, Leaves}
use solta.Pb.Istream.{Istream, Dest, pb_read}
use solta.Pb.Istream.Safety.{IsSafe, After, Takes-pb_read}
use solta.Pb.Istream.Values.{Holds}
use solta.Pb.Varint.{pb_decode_varint32, pb_decode_varint, pb_skip_field, read_raw_value}
use solta.Pb.Varint.Safety.{Takes-pb_decode_varint32, Takes-pb_decode_varint}
use solta.Pb.Varint.Safety.{Takes-pb_skip_field, Takes-read_raw_value}
use solta.Pb.Varint.Raw.{IsWhole, Gives-read_raw_value-IsWhole}

module _ {S : Type 0} (slack : ℕ) (s : Istream S) (safe : IsSafe slack s) where
  -- On a safe stream, `pb_read` of `count` bytes, into an array or past them, ends and does not read
  -- outside the stream's array. When it succeeds `bytes_left` is lower by `count` at least, when it
  -- fails `bytes_left` is not higher, and the stream is safe in both cases.
  pub pb_read-Leaves :
      (buf : Dest) (count : ℕ)
      → Leaves (After slack count s.bytes_left) (After slack 0 s.bytes_left) (pb_read buf count s)
  pb_read-Leaves buf count = Takes-pb_read buf count slack s safe

  -- On a safe stream both varint decoders end and do not read outside the stream's array. A decoder
  -- that succeeds has lowered `bytes_left` by one at least, one that fails has not raised it, and the
  -- stream is safe in both cases.
  pub decode_varint-Leaves :
      Leaves (After slack 1 s.bytes_left) (After slack 0 s.bytes_left) (pb_decode_varint32 s)
      × Leaves (After slack 1 s.bytes_left) (After slack 0 s.bytes_left) (pb_decode_varint s)
  decode_varint-Leaves =
      (Takes-pb_decode_varint32 slack s safe, Takes-pb_decode_varint slack s safe)

  -- On a safe stream, skipping a field of any wire type ends and does not read outside the stream's
  -- array. When it succeeds `bytes_left` is lower by one at least, when it fails `bytes_left` is not
  -- higher, and the stream is safe in both cases.
  pub pb_skip_field-Leaves :
      (wire_type : ℕ)
      → Leaves (After slack 1 s.bytes_left) (After slack 0 s.bytes_left) (pb_skip_field wire_type s)
  pb_skip_field-Leaves wire_type = Takes-pb_skip_field wire_type slack s safe

  -- On a safe stream and with a buffer of 8 bytes at least, `read_raw_value` of any wire type ends and
  -- does not read outside the stream's array; `bytes_left` is not higher after it, and the stream is
  -- safe, whether it succeeds or fails. When it succeeds the bytes fit
  -- into the buffer, and they are a varint up to its last byte for wire type 0, eight bytes for wire
  -- type 1 or four bytes for wire type 5; it succeeds for no other wire type.
  pub read_raw_value-Leaves :
      (wire_type max_size : ℕ)
      → 8 ≤ max_size
      → Leaves
          (After slack 0 s.bytes_left)
          (After slack 0 s.bytes_left)
          (read_raw_value wire_type max_size s)
        × Holds
            (λ bytes. (length bytes ≤ max_size) × IsWhole wire_type bytes)
            (read_raw_value wire_type max_size s)
  read_raw_value-Leaves wire_type max_size room = (
    Takes-read_raw_value wire_type max_size room slack s safe,
    Gives-read_raw_value-IsWhole wire_type max_size room slack s safe,
  )
