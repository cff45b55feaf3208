-- ===== src/Pb/Decode/RoundTrip.antt =====
-- What pb_encode.c writes for a number, pb_decode.c reads back, in the form that every stream into
-- an array shares: the bytes appended, and the same bytes in front of any others.
use solta.Base.{ℕ, ◌+◌, ◌-◌, ◌*◌, ◌%◌, ◌^◌, ◌≤◌, ◌<◌, ◌≡◌, ap, ◌∙◌, arith}
use solta.Base.{bit_or, bit_or_low, bit_and_low, bit_and_one, leb}
use solta.Base.{if◌then◌else◌, length, length-append, List, ◌++◌, Option, IsU64, IsU32}
use solta.Base.{done, ◌>>=◌}
use solta.Pb.Codec.{Writes, Reads, pb_write-Writes, pb_read-Reads, Writes-then, Reads-bind}
use solta.Pb.Istream.{into, pb_read}
use solta.Pb.Istream.Buffer.{at}
use solta.Pb.Ostream.{pb_write}
use solta.Pb.Ostream.Laws.{write-filling}
use solta.Pb.Varint.{pb_decode_varint, pb_decode_varint32, pb_decode_tag, tagged}
use solta.Pb.Varint.Value.{pb_decode_varint-value, pb_decode_varint32-value}
use solta.Pb.Encode.{pb_encode_varint, pb_encode_svarint}
use solta.Pb.Encode.{pb_encode_tag, pb_encode_string}
use solta.Pb.Encode.Varint.{
  varint, pb_encode_varint-varint, varint-IsVarint, value-varint, length-varint,
}
use solta.Pb.Encode.Varint.{length-varint_short}
use solta.Pb.Errmsg.{Errmsg}
use solta.Pb.Decode.{unzigzag}
use solta.Pb.Decode.{pb_decode_svarint}

pub varint-Writes : (v : ℕ) → IsU64 v → Writes (λ S. pb_encode_varint {S = S} v) (varint 9 v)
varint-Writes v u S stored room limit written e h k l =
    rw (pb_encode_varint-varint {S = S} v u)
      (write-filling (varint 9 v) stored room limit written e h k l)

pub varint-Reads : (v : ℕ) → IsU64 v → Reads (λ S. pb_decode_varint {S = S}) (varint 9 v) v
varint-Reads v u S rest left e few =
    pb_decode_varint-value (varint 9 v) rest left e (varint-IsVarint 9 v (omega arith))
      (omega (arith, length-varint 9 v)) few
    ∙ ap (λ n. done n (at rest left e)) (omega (arith, value-varint 9 v (omega arith)))

-- Encoding a uint64 writes one to ten bytes, and decoding these bytes, in front of any others,
-- gives the number back and takes just them.
pub varint-RoundTrip :
    (v : ℕ)
    → IsU64 v
    → (bytes : List ℕ) × (length bytes ≤ 10)
      × Writes (λ S. pb_encode_varint {S = S} v) bytes
      × Reads (λ S. pb_decode_varint {S = S}) bytes v
varint-RoundTrip v u =
    (varint 9 v, omega (arith, length-varint 9 v), varint-Writes v u, varint-Reads v u)

-- `zigzagged` of pb_encode_svarint.
abbrev pub zigzag : ℕ → ℕ
zigzag n = if leb (2 ^ 63) n then 2 ^ 64 - 1 - n * 2 % 2 ^ 64 else n * 2 % 2 ^ 64

unzigzag-zigzag : (n : ℕ) → IsU64 n → unzigzag (zigzag n) ≡ n
unfolding unzigzag
unzigzag-zigzag n u = ground (arith, bit_and_one (zigzag n))

-- Encoding an int64 (as a bit pattern) in zigzag form and decoding it gives it back, and takes
-- just the bytes that were written, ten at most.
pub svarint-RoundTrip :
    (n : ℕ)
    → IsU64 n
    → (bytes : List ℕ) × (length bytes ≤ 10)
      × Writes (λ S. pb_encode_svarint {S = S} n) bytes
      × Reads (λ S. pb_decode_svarint {S = S}) bytes n
unfolding pb_encode_svarint pb_decode_svarint
svarint-RoundTrip n u =
    let z : IsU64 (zigzag n) = ground arith in
    (
      varint 9 (zigzag n),
      omega (arith, length-varint 9 (zigzag n)),
      varint-Writes (zigzag n) z,
      λ S rest left e few. rw (varint-Reads (zigzag n) z S rest left e few, unzigzag-zigzag n u),
    )

varint32-Reads : (v : ℕ) → IsU32 v → Reads (λ S. pb_decode_varint32 {S = S}) (varint 9 v) v
varint32-Reads v u S rest left e few =
    pb_decode_varint32-value (varint 9 v) rest left e (varint-IsVarint 9 v (omega arith))
      (length-varint_short 9 4 v (omega arith)) few
    ∙ ap (λ n. done n (at rest left e)) (omega (arith, value-varint 9 v (omega arith)))

-- `(field_number << 3) | wiretype`.
tag-sum :
    (wt field : ℕ) → wt < 8 → field < 2 ^ 29 → bit_or (field * 2 ^ 3 % 2 ^ 64) wt ≡ field * 8 + wt
tag-sum wt field h k = omega (arith, ap (λ t. bit_or t wt) cut, bit_or_low 3 field wt h)
  where
    cut : field * 2 ^ 3 % 2 ^ 64 ≡ field * 2 ^ 3
    cut = omega arith

-- The tag of a field, for a field number from 1 to 2 ^ 29 - 1 and a wire type below 8, is written
-- in at most five bytes, and `pb_decode_tag` reads both back from them, in front of any others.
pub tag-RoundTrip :
    (wt field : ℕ)
    → wt < 8
    → 0 < field
    → field < 2 ^ 29
    → (bytes : List ℕ) × (length bytes ≤ 5)
      × Writes (λ S. pb_encode_tag {S = S} wt field) bytes
      × ((S : Type 0) (rest : List ℕ) (left : ℕ) (e : Option Errmsg)
          → length bytes + left < 2 ^ 64
          → pb_decode_tag {S = S} (at (bytes ++ rest) (left + length bytes) e)
            ≡ tagged wt field (at rest left e))
unfolding pb_encode_tag pb_decode_tag
tag-RoundTrip wt field h pos k =
    let n : ℕ = field * 8 + wt in
    (
      varint 9 n,
      length-varint_short 9 4 n (omega arith),
      λ S. rw (tag-sum wt field h k) (varint-Writes n (omega arith) S),
      λ S rest left e few.
          rw (varint32-Reads n (omega arith) S rest left e few) (ground (arith, bit_and_low 3 n)),
    )

-- A byte string with its length in front is written by `pb_encode_string` and read back as
-- `pb_dec_bytes` reads it: its length as a uint32, and then that many bytes.
pub string-RoundTrip :
    (text : List ℕ)
    → IsU32 (length text)
    → (bytes : List ℕ) × (length bytes ≤ length text + 10)
      × Writes (λ S. pb_encode_string {S = S} text (length text)) bytes
      × Reads (λ S. pb_decode_varint32 {S = S} >>= λ size. pb_read into size) bytes text
unfolding pb_encode_string
string-RoundTrip text u =
    let n : ℕ = length text in
    (
      varint 9 n ++ text,
      omega (arith, length-append (varint 9 n) text, length-varint 9 n),
      Writes-then (λ S. pb_encode_varint n) (λ S. pb_write text n) (varint 9 n) text
          (varint-Writes n (omega arith)) (pb_write-Writes text),
      Reads-bind (λ S. pb_decode_varint32) (λ S size. pb_read into size) (varint 9 n) text n text
          (varint32-Reads n u) (pb_read-Reads into text),
    )
