-- ===== src/Pb/Runs.antt =====
-- Concrete runs of the nanopb functions, and the theorems at concrete inputs.
use solta.Base.{
  ℕ, ◌+◌, ◌-◌, ◌%◌, ◌^◌, ◌≤◌, ◌<◌, ◌≡◌, refl, arith, length, List, [], ◌∷◌, ◌++◌, none, some, ◌>>=◌,
}
use solta.Base.{done, failed, Leaves}
use solta.Pb.Errmsg.{end_of_stream, stream_full, varint_overflow}
use solta.Pb.Istream.{Istream, into, pb_read}
use solta.Pb.Istream.Buffer.{at}
use solta.Pb.Istream.Safety.{IsSafe, After}
use solta.Pb.Ostream.{Ostream, pb_write}
use solta.Pb.Ostream.Laws.{filling}
use solta.Pb.Ostream.Safety.{Wrote, pb_write-Leaves}
use solta.Pb.Varint.{pb_decode_varint, pb_decode_varint32, pb_decode_tag, pb_skip_field}
use solta.Pb.Varint.{read_raw_value, tagged}
use solta.Pb.Varint.Safety.{LeavesTag, pb_decode_tag-Leaves}
use solta.Pb.Varint.Value.{value, pb_decode_varint-value, pb_decode_varint32-value}
use solta.Pb.Varint.Value.{pb_decode_varint_truncated, decode_varint_overflow}
use solta.Pb.Encode.{pb_encode_varint, pb_encode_svarint, pb_encode_fixed32, pb_encode_fixed64}
use solta.Pb.Encode.{pb_encode_tag, pb_encode_string}
use solta.Pb.Encode.Varint.{varint, pb_encode_varint-varint}
use solta.Pb.Decode.{pb_decode_svarint, pb_decode_fixed32, pb_decode_fixed64}
use solta.Pb.Decode.Fixed.{le32, le64}
use solta.Pb.Substream.{pb_make_string_substream, pb_close_string_substream}
use solta.Pb.Substream.Safety.{Splits, make-Splits, IsBehind, close-Leaves}
use solta.Pb.Safety.{pb_read-Leaves, decode_varint-Leaves, pb_skip_field-Leaves}
use solta.Pb.Istream.Values.{Holds}
use solta.Pb.Varint.Raw.{IsWhole}
use solta.Pb.Safety.{read_raw_value-Leaves}
use solta.Pb.RoundTrip.{Appends, Gives, pb_decode_varint-pb_encode_varint}
use solta.Pb.RoundTrip.{pb_decode_svarint-pb_encode_svarint, pb_decode_tag-pb_encode_tag}
use solta.Pb.RoundTrip.{decode_fixed-encode_fixed, pb_read-pb_encode_string}

-- The number 300 and two more bytes, of which one may be read.
abbrev three_hundred : List ℕ
three_hundred = 0xac ∷ 0x02 ∷ []

abbrev input : Istream ℕ
input = at (0xac ∷ 0x02 ∷ 7 ∷ 8 ∷ []) 3 none

input-IsSafe : IsSafe 1 input
input-IsSafe = record {
  covers = (omega arith, (omega arith, (omega arith, (omega arith, (omega arith, tt)))));
  small = omega arith;
}

decode_300 : pb_decode_varint input ≡ done 300 (at (7 ∷ 8 ∷ []) 1 none)
unfolding pb_decode_varint solta.Pb.Varint.varint_rounds solta.Pb.Istream.pb_readbyte
decode_300 = refl

encode_300 : varint 9 300 ≡ three_hundred
unfolding varint
encode_300 = refl

pb_decode_varint-value_example :
    pb_decode_varint input ≡ done (value three_hundred % 2 ^ 64) (at (7 ∷ 8 ∷ []) 1 none)
pb_decode_varint-value_example =
    pb_decode_varint-value three_hundred (7 ∷ 8 ∷ []) 1 none (omega arith, omega arith, omega arith)
      (omega arith) (omega arith)

pb_decode_varint32-value_example :
    pb_decode_varint32 input ≡ done (value three_hundred % 2 ^ 32) (at (7 ∷ 8 ∷ []) 1 none)
pb_decode_varint32-value_example =
    pb_decode_varint32-value three_hundred (7 ∷ 8 ∷ []) 1 none
      (omega arith, omega arith, omega arith) (omega arith) (omega arith)

pb_decode_varint_truncated_example :
    pb_decode_varint {S = ℕ} (at (0xac ∷ 0x82 ∷ 7 ∷ []) 2 none)
    ≡ failed (at (7 ∷ []) 0 (some end_of_stream))
pb_decode_varint_truncated_example =
    pb_decode_varint_truncated (0xac ∷ 0x82 ∷ []) (7 ∷ []) none
      ((omega arith, omega arith), ((omega arith, omega arith), tt)) (omega arith)

abbrev five_open : List ℕ → List ℕ
five_open rest = 0xff ∷ 0xff ∷ 0xff ∷ 0xff ∷ 0xff ∷ rest

decode_varint_overflow_example :
    (pb_decode_varint {S = ℕ} (at (five_open (five_open (7 ∷ []))) 11 none)
      ≡ failed (at (7 ∷ []) 1 (some varint_overflow)))
    × (pb_decode_varint32 {S = ℕ} (at (five_open (7 ∷ [])) 6 none)
        ≡ failed (at (7 ∷ []) 1 (some varint_overflow)))
decode_varint_overflow_example =
    decode_varint_overflow (five_open (five_open [])) (five_open []) (7 ∷ []) 1 none
      (
        open_byte,
        (
          open_byte,
          (
            open_byte,
            (
              open_byte,
              (open_byte, (open_byte, (open_byte, (open_byte, (open_byte, (open_byte, tt)))))),
            ),
          ),
        ),
      )
      (open_byte, (open_byte, (open_byte, (open_byte, (open_byte, tt))))) refl refl (omega arith)
  where
    open_byte : (128 ≤ 0xff) × (0xff < 256)
    open_byte = (omega arith, omega arith)

pb_decode_varint-pb_encode_varint_example :
    (bytes : List ℕ) × (length bytes ≤ 10)
    × Appends {S = ℕ}
        (9 ∷ [])
        (7 ∷ [])
        20
        21
        1
        1
        none
        none
        (omega arith)
        (pb_encode_varint 300)
        bytes
    × Gives {S = ℕ} (9 ∷ []) (7 ∷ []) 20 21 1 1 none none (omega arith) pb_decode_varint bytes 300
pb_decode_varint-pb_encode_varint_example =
    pb_decode_varint-pb_encode_varint (9 ∷ []) (7 ∷ []) 20 21 1 1 none none (omega arith) 300
      (omega arith) (omega arith) (omega arith) (omega arith)

-- The pattern of -2.
abbrev minus_two : ℕ
minus_two = 2 ^ 64 - 2

pb_decode_svarint-pb_encode_svarint_example :
    (bytes : List ℕ) × (length bytes ≤ 10)
    × Appends {S = ℕ} []
        (7 ∷ [])
        20
        20
        0
        1
        none
        none
        (omega arith)
        (pb_encode_svarint minus_two)
        bytes
    × Gives {S = ℕ} [] (7 ∷ []) 20 20 0 1 none none (omega arith) pb_decode_svarint bytes minus_two
pb_decode_svarint-pb_encode_svarint_example =
    pb_decode_svarint-pb_encode_svarint [] (7 ∷ []) 20 20 0 1 none none (omega arith) minus_two
      (omega arith) (omega arith) (omega arith) (omega arith)

pb_decode_tag-pb_encode_tag_example :
    (bytes : List ℕ) × (length bytes ≤ 5)
    × Appends {S = ℕ} [] (7 ∷ []) 5 5 0 1 none none (omega arith) (pb_encode_tag 2 1000) bytes
    × (pb_decode_tag {S = ℕ} (at (bytes ++ 7 ∷ []) (1 + length bytes) none)
        ≡ tagged 2 1000 (at (7 ∷ []) 1 none))
pb_decode_tag-pb_encode_tag_example =
    pb_decode_tag-pb_encode_tag [] (7 ∷ []) 5 5 0 1 none none (omega arith) 2 1000 (omega arith)
      (omega arith) (omega arith) (omega arith) (omega arith) (omega arith)

decode_fixed-encode_fixed_example :
    Appends {S = ℕ} []
      (7 ∷ [])
      8
      8
      0
      1
      none
      none
      (omega arith)
      (pb_encode_fixed32 100000)
      (le32 100000)
    × Gives {S = ℕ} []
        (7 ∷ [])
        8
        8
        0
        1
        none
        none
        (omega arith)
        pb_decode_fixed32
        (le32 100000)
        100000
    × Appends {S = ℕ} []
        (7 ∷ [])
        8
        8
        0
        1
        none
        none
        (omega arith)
        (pb_encode_fixed64 minus_two)
        (le64 minus_two)
    × Gives {S = ℕ} []
        (7 ∷ [])
        8
        8
        0
        1
        none
        none
        (omega arith)
        pb_decode_fixed64
        (le64 minus_two)
        minus_two
decode_fixed-encode_fixed_example =
    decode_fixed-encode_fixed [] (7 ∷ []) 8 8 0 1 none none (omega arith) 100000 minus_two
      (omega arith) (omega arith) (omega arith) (omega arith) (omega arith)

pb_read-pb_encode_string_example :
    (bytes : List ℕ) × (length bytes ≤ 12)
    × Appends {S = ℕ} []
        (7 ∷ [])
        12
        12
        0
        1
        none
        none
        (omega arith)
        (pb_encode_string (104 ∷ 105 ∷ []) 2)
        bytes
    × Gives {S = ℕ} []
        (7 ∷ [])
        12
        12
        0
        1
        none
        none
        (omega arith)
        (pb_decode_varint32 >>= λ size. pb_read into size)
        bytes
        (104 ∷ 105 ∷ [])
pb_read-pb_encode_string_example =
    pb_read-pb_encode_string [] (7 ∷ []) 12 12 0 1 none none (omega arith) (104 ∷ 105 ∷ [])
      (omega arith) (omega arith) (omega arith) (omega arith)

pb_encode_varint-varint_example :
    pb_encode_varint {S = ℕ} 300 ≡ pb_write (varint 9 300) (length (varint 9 300))
pb_encode_varint-varint_example = pb_encode_varint-varint 300 (omega arith)

pb_read-Leaves_example : Leaves (After 1 2 3) (After 1 0 3) (pb_read into 2 input)
pb_read-Leaves_example = pb_read-Leaves 1 input input-IsSafe into 2

decode_varint-Leaves_example :
    Leaves (After 1 1 3) (After 1 0 3) (pb_decode_varint32 input)
    × Leaves (After 1 1 3) (After 1 0 3) (pb_decode_varint input)
decode_varint-Leaves_example = decode_varint-Leaves 1 input input-IsSafe

pb_skip_field-Leaves_example : Leaves (After 1 1 3) (After 1 0 3) (pb_skip_field 2 input)
pb_skip_field-Leaves_example = pb_skip_field-Leaves 1 input input-IsSafe 2

read_raw_value-Leaves_example :
    Leaves (After 1 0 3) (After 1 0 3) (read_raw_value 0 10 input)
    × Holds (λ bytes. (length bytes ≤ 10) × IsWhole 0 bytes) (read_raw_value 0 10 input)
read_raw_value-Leaves_example = read_raw_value-Leaves 1 input input-IsSafe 0 10 (omega arith)

pb_decode_tag-Leaves_example : LeavesTag (After 1 1 3) (After 1 0 3) (pb_decode_tag input)
pb_decode_tag-Leaves_example = pb_decode_tag-Leaves 1 input input-IsSafe

-- A string of two bytes, and one more byte.
abbrev string_input : Istream ℕ
string_input = at (2 ∷ 104 ∷ 105 ∷ 7 ∷ []) 4 none

make-Splits_example : Splits 0 4 (pb_make_string_substream string_input)
make-Splits_example = make-Splits 0 string_input (record {
  covers = (omega arith, (omega arith, (omega arith, (omega arith, (omega arith, tt)))));
  small = omega arith;
})

-- One byte of the string has been read.
abbrev substream : Istream ℕ
substream = at (105 ∷ 7 ∷ []) 1 none

abbrev parent : Istream ℕ
parent = at (104 ∷ 105 ∷ 7 ∷ []) 1 none

close-Leaves_example :
    Leaves
      (λ t. IsSafe 0 t × (t.bytes_left ≡ 1) × IsBehind substream t)
      (λ t. t ≡ parent)
      (pb_close_string_substream substream parent)
close-Leaves_example =
    close-Leaves 0 substream parent
      (record { covers = (omega arith, (omega arith, (omega arith, tt))); small = omega arith })
      (omega arith)

-- An array of four bytes that holds one, with `max_size` 4.
abbrev output : Ostream ℕ
output = filling (9 ∷ []) 3 4 1 none

pb_write-Leaves_example : Leaves (Wrote 3) (Wrote 1) (pb_write (7 ∷ 8 ∷ []) 2 output)
pb_write-Leaves_example =
    pb_write-Leaves output (7 ∷ 8 ∷ []) 2 (omega arith, omega arith) (omega arith) (omega arith)

-- A write past `max_size` stores nothing.
write_too_long :
    pb_write (7 ∷ 8 ∷ 7 ∷ 8 ∷ []) 4 output ≡ failed (filling (9 ∷ []) 3 4 1 (some stream_full))
unfolding pb_write
write_too_long = refl
