-- ===== src/Pb/RoundTrip.antt =====
-- What the writers of SOLTA/Pods/nanopb/pb_encode.c put into an array, the readers of pb_decode.c
-- take from it.
use solta.Base.{ℕ, ◌+◌, ◌-◌, ◌≤◌, ◌<◌, ◌^◌, ◌≡◌, arith, length, List, ◌++◌, Option, IsU32, IsU64}
use solta.Base.{M, done, ◌>>=◌}
use solta.Pb.Errmsg.{Errmsg}
use solta.Pb.Istream.{Istream, into, pb_read}
use solta.Pb.Istream.Buffer.{at}
use solta.Pb.Ostream.{Ostream}
use solta.Pb.Ostream.Laws.{filling}
use solta.Pb.Varint.{pb_decode_varint32, pb_decode_varint, pb_decode_tag, tagged}
use solta.Pb.Encode.{pb_encode_varint, pb_encode_svarint, pb_encode_fixed32, pb_encode_fixed64}
use solta.Pb.Encode.{pb_encode_tag, pb_encode_string}
use solta.Pb.Decode.{pb_decode_svarint, pb_decode_fixed32, pb_decode_fixed64}
use solta.Pb.Decode.RoundTrip.{varint-RoundTrip, svarint-RoundTrip, tag-RoundTrip, string-RoundTrip}
use solta.Pb.Decode.Fixed.{fixed-RoundTrip, le32, le64}

-- An output stream into an array, with `limit` for `max_size`; and an input stream over bytes, of
-- which `left` and the ones in front are to be read.
module _ {S : Type 0} (stored rest : List ℕ) (room limit written left : ℕ) (e e' : Option Errmsg)
    (small : limit < 2 ^ 64) where
  -- The writer puts `bytes` behind what the array holds.
  abbrev pub Appends : M (Ostream S) (Unit {0}) → List ℕ → Type 0
  Appends write bytes =
      write (filling stored room limit written e)
      ≡ done tt (filling (stored ++ bytes) (room - length bytes) limit (written + length bytes) e)

  -- The reader takes just `bytes` off the front, and gives `v`.
  abbrev pub Gives : {A : Type 0} → M (Istream S) A → List ℕ → A → Type 0
  Gives read bytes v = read (at (bytes ++ rest) (left + length bytes) e') ≡ done v (at rest left e')

  -- Any uint64 is written as a varint of at most ten bytes, if the array and `max_size` have room
  -- for ten, and `pb_decode_varint` reads it back from them, whatever follows. Both limits are below
  -- 2 ^ 64.
  pub pb_decode_varint-pb_encode_varint :
      (v : ℕ)
      → IsU64 v
      → 10 ≤ room
      → written + 10 ≤ limit
      → 10 + left < 2 ^ 64
      → (bytes : List ℕ) × (length bytes ≤ 10)
        × Appends (pb_encode_varint v) bytes
        × Gives pb_decode_varint bytes v
  pb_decode_varint-pb_encode_varint v u fits under few =
      let (bytes, short, w, r) = varint-RoundTrip v u in
      (
        bytes,
        short,
        w S stored room limit written e (omega arith) (omega arith) small,
        r S rest left e' (omega arith),
      )

  -- Any int64, by its bit pattern, is written in zigzag form in at most ten bytes, if the array and
  -- `max_size` have room for ten, and `pb_decode_svarint` reads it back, whatever follows. Both limits
  -- are below 2 ^ 64.
  pub pb_decode_svarint-pb_encode_svarint :
      (v : ℕ)
      → IsU64 v
      → 10 ≤ room
      → written + 10 ≤ limit
      → 10 + left < 2 ^ 64
      → (bytes : List ℕ) × (length bytes ≤ 10)
        × Appends (pb_encode_svarint v) bytes
        × Gives pb_decode_svarint bytes v
  pb_decode_svarint-pb_encode_svarint v u fits under few =
      let (bytes, short, w, r) = svarint-RoundTrip v u in
      (
        bytes,
        short,
        w S stored room limit written e (omega arith) (omega arith) small,
        r S rest left e' (omega arith),
      )

  -- The tag of a field, for a field number from 1 to 2 ^ 29 - 1 and a wire type below 8, is written
  -- in at most five bytes, if the array and `max_size` have room for five, and `pb_decode_tag` reads
  -- the wire type and the number back, whatever follows. Both limits are below 2 ^ 64.
  pub pb_decode_tag-pb_encode_tag :
      (wt field : ℕ)
      → wt < 8
      → 0 < field
      → field < 2 ^ 29
      → 5 ≤ room
      → written + 5 ≤ limit
      → 5 + left < 2 ^ 64
      → (bytes : List ℕ) × (length bytes ≤ 5)
        × Appends (pb_encode_tag wt field) bytes
        × (pb_decode_tag {S = S} (at (bytes ++ rest) (left + length bytes) e')
            ≡ tagged wt field (at rest left e'))
  pb_decode_tag-pb_encode_tag wt field h pos k fits under few =
      let (bytes, short, w, r) = tag-RoundTrip wt field h pos k in
      (
        bytes,
        short,
        w S stored room limit written e (omega arith) (omega arith) small,
        r S rest left e' (omega arith),
      )

  -- A uint32 is written as its four bytes, the lowest first, and read back from them, and a uint64 as
  -- its eight bytes, if the array and `max_size` have room for eight and both limits are below 2 ^ 64.
  pub decode_fixed-encode_fixed :
      (v w : ℕ)
      → IsU32 v
      → IsU64 w
      → 8 ≤ room
      → written + 8 ≤ limit
      → 8 + left < 2 ^ 64
      → Appends (pb_encode_fixed32 v) (le32 v)
        × Gives pb_decode_fixed32 (le32 v) v
        × Appends (pb_encode_fixed64 w) (le64 w)
        × Gives pb_decode_fixed64 (le64 w) w
  decode_fixed-encode_fixed v w u x fits under few =
      let (w32, r32, w64, r64) = fixed-RoundTrip v w u x in
      (
        w32 S stored room limit written e (omega arith) (omega arith) small,
        r32 S rest left e' (omega arith),
        w64 S stored room limit written e (omega arith) (omega arith) small,
        r64 S rest left e' (omega arith),
      )

  -- A byte string with its length in front is written by `pb_encode_string`, if the array and
  -- `max_size` have room for ten bytes more than the string, and read back whole: its length by
  -- `pb_decode_varint32`, and then as many bytes by `pb_read`. The length is a uint32, and both limits
  -- are below 2 ^ 64.
  pub pb_read-pb_encode_string :
      (text : List ℕ)
      → IsU32 (length text)
      → length text + 10 ≤ room
      → written + length text + 10 ≤ limit
      → length text + 10 + left < 2 ^ 64
      → (bytes : List ℕ) × (length bytes ≤ length text + 10)
        × Appends (pb_encode_string text (length text)) bytes
        × Gives (pb_decode_varint32 >>= λ size. pb_read into size) bytes text
  pb_read-pb_encode_string text u fits under few =
      let (bytes, short, w, r) = string-RoundTrip text u in
      (
        bytes,
        short,
        w S stored room limit written e (omega arith) (omega arith) small,
        r S rest left e' (omega arith),
      )
