-- ===== src/Pb/Encode.antt =====
-- Writing of numbers: the "Helper functions" of SOLTA/Pods/nanopb/pb_encode.c, without the message
-- functions between them.
pub mod Varint
pub mod Scalar
pub mod Bytes
use solta.Base.{ℕ, zero, suc, ◌+◌, ◌-◌, ◌*◌, ◌/◌, ◌%◌, ◌^◌, bit_and, bit_or, ltb, leb, ◌==◌}
use solta.Base.{if◌then◌else◌, length, List, [], ◌∷◌, Option, none, some}
use solta.Base.{M, crash, ◌>>=◌, ◌>>◌}
use solta.Pb.Ostream.{Ostream, pb_write}
use mathlib.Core.Option

-- The `while (value)` loop; the first number is how many bytes of `buffer` are free, and `none` a
-- write past its end.
unfoldable pub varint_groups : ℕ → ℕ → Option (List ℕ)
varint_groups zero value = if value == 0 then some [] else none
varint_groups (suc room) value =
    let more =
      Option.map (λ l. bit_or (bit_and value 0x7F) 0x80 % 256 ∷ l)
        (varint_groups room (value / 2 ^ 7)) in
    if value == 0 then some [] else more

-- `buffer[i-1] &= 0x7F`.
unfoldable pub clear_last : List ℕ → List ℕ
clear_last [] = []
clear_last (b ∷ []) = bit_and b 0x7F ∷ []
clear_last (b ∷ c ∷ bytes) = b ∷ clear_last (c ∷ bytes)

module _ {S : Type 0} where
  abbrev pub write_groups : Option (List ℕ) → M (Ostream S) (Unit {0})
  write_groups none = crash
  write_groups (some bytes) = pb_write (clear_last bytes) (length bytes)

  unfoldable pub pb_encode_varint : ℕ → M (Ostream S) (Unit {0})
  pb_encode_varint value =
      if leb value 0x7F
      then pb_write (value % 256 ∷ []) 1
      else write_groups (varint_groups 10 value)

  -- An int64_t is its bit pattern, below 2 ^ 64; `~x` is 2 ^ 64 - 1 - x.
  unfoldable pub pb_encode_svarint : ℕ → M (Ostream S) (Unit {0})
  pb_encode_svarint value =
      pb_encode_varint
        (if leb (2 ^ 63) value then 2 ^ 64 - 1 - value * 2 % 2 ^ 64 else value * 2 % 2 ^ 64)

  -- The argument is the uint32_t behind the pointer.
  unfoldable pub pb_encode_fixed32 : ℕ → M (Ostream S) (Unit {0})
  pb_encode_fixed32 val =
      pb_write
        (bit_and val 0xFF
          ∷ bit_and (val / 2 ^ 8) 0xFF
          ∷ bit_and (val / 2 ^ 16) 0xFF
          ∷ bit_and (val / 2 ^ 24) 0xFF
          ∷ [])
        4

  unfoldable pub pb_encode_fixed64 : ℕ → M (Ostream S) (Unit {0})
  pb_encode_fixed64 val =
      pb_write
        (bit_and val 0xFF
          ∷ bit_and (val / 2 ^ 8) 0xFF
          ∷ bit_and (val / 2 ^ 16) 0xFF
          ∷ bit_and (val / 2 ^ 24) 0xFF
          ∷ bit_and (val / 2 ^ 32) 0xFF
          ∷ bit_and (val / 2 ^ 40) 0xFF
          ∷ bit_and (val / 2 ^ 48) 0xFF
          ∷ bit_and (val / 2 ^ 56) 0xFF
          ∷ [])
        8

  unfoldable pub pb_encode_tag : ℕ → ℕ → M (Ostream S) (Unit {0})
  pb_encode_tag wiretype field_number =
      pb_encode_varint (bit_or (field_number * 2 ^ 3 % 2 ^ 64) wiretype)

  -- A NULL buffer is the empty list.
  unfoldable pub pb_encode_string : List ℕ → ℕ → M (Ostream S) (Unit {0})
  pb_encode_string buffer size = pb_encode_varint size >> pb_write buffer size
