-- ===== src/Pb/Decode.antt =====
-- The numbers behind the "Field decoders" of SOLTA/Pods/nanopb/pb_decode.c: `pb_decode_svarint`,
-- `pb_decode_fixed32` and `pb_decode_fixed64`.
pub mod RoundTrip
pub mod Fixed
pub mod Scalar
pub mod Bytes
use solta.Base.{ℕ, zero, suc, ◌+◌, ◌-◌, ◌*◌, ◌/◌, ◌^◌, bit_and, bit_or, ◌==◌, if◌then◌else◌}
use solta.Base.{List, [], ◌∷◌, M, pure, ◌>>=◌}
use solta.Pb.Istream.{Istream, Dest, into, pb_read}
use solta.Pb.Varint.{pb_decode_varint}

-- `bytes[i]`; the arrays here are as long as the indices need.
abbrev pub byte_at : List ℕ → ℕ → ℕ
byte_at [] i = 0
byte_at (b ∷ bytes) zero = b
byte_at (b ∷ bytes) (suc i) = byte_at bytes i

-- `if (value & 1) ~(value >> 1) else value >> 1`, as the bit pattern of an int64_t.
unfoldable pub unzigzag : ℕ → ℕ
unzigzag value = if bit_and value 1 == 0 then value / 2 else 2 ^ 64 - 1 - value / 2

-- The bytes at 0, 8, 16, … put together by `|` and `<<`.
unfoldable pub little_endian32 : List ℕ → ℕ
little_endian32 b =
    bit_or (bit_or (bit_or (byte_at b 0) (byte_at b 1 * 2 ^ 8)) (byte_at b 2 * 2 ^ 16))
      (byte_at b 3 * 2 ^ 24)

unfoldable pub little_endian64 : List ℕ → ℕ
unfolding little_endian32
little_endian64 b =
    bit_or
      (bit_or (bit_or (bit_or (little_endian32 b) (byte_at b 4 * 2 ^ 32)) (byte_at b 5 * 2 ^ 40))
        (byte_at b 6 * 2 ^ 48))
      (byte_at b 7 * 2 ^ 56)

module _ {S : Type 0} where
  unfoldable pub pb_decode_svarint : M (Istream S) ℕ
  pb_decode_svarint = do value ← pb_decode_varint; pure (unzigzag value)

  unfoldable pub pb_decode_fixed32 : M (Istream S) ℕ
  pb_decode_fixed32 = do bytes ← pb_read into 4; pure (little_endian32 bytes)

  unfoldable pub pb_decode_fixed64 : M (Istream S) ℕ
  pb_decode_fixed64 = do bytes ← pb_read into 8; pure (little_endian64 bytes)
