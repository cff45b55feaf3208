-- ===== src/Pb/Decode/Fixed.antt =====
-- Fixed-width numbers: four or eight bytes, the lowest first.
use solta.Base.{ℕ, ◌+◌, ◌*◌, ◌/◌, ◌%◌, ◌^◌, ◌<◌, ◌≡◌, ap, ◌∙◌, arith}
use solta.Base.{bit_and, bit_or_high, bit_and_low, List, [], ◌∷◌, IsU64, IsU32}
use solta.Base.{done}
use solta.Pb.Istream.{into, pb_read}
use solta.Pb.Istream.Buffer.{at}
use solta.Pb.Encode.{pb_encode_fixed32, pb_encode_fixed64}
use solta.Pb.Decode.{little_endian32, little_endian64, pb_decode_fixed32, pb_decode_fixed64}
use solta.Pb.Codec.{Writes, Reads, pb_write-Writes, pb_read-Reads, Reads-map}

-- The bytes that encoding writes.
abbrev pub le32 : ℕ → List ℕ
le32 v = v % 256 ∷ v / 2 ^ 8 % 256 ∷ v / 2 ^ 16 % 256 ∷ v / 2 ^ 24 % 256 ∷ []

abbrev pub le64 : ℕ → List ℕ
le64 v =
    v % 256
    ∷ v / 2 ^ 8 % 256
    ∷ v / 2 ^ 16 % 256
    ∷ v / 2 ^ 24 % 256
    ∷ v / 2 ^ 32 % 256
    ∷ v / 2 ^ 40 % 256
    ∷ v / 2 ^ 48 % 256
    ∷ v / 2 ^ 56 % 256
    ∷ []

module _ (a b c d : ℕ) (l : List ℕ) (ha : a < 256) (hb : b < 256) (hc : c < 256)
    (hd : d < 256) where
  abbrev sum32 : ℕ
  sum32 = a + b * 2 ^ 8 + c * 2 ^ 16 + d * 2 ^ 24

  little_endian32-sum : little_endian32 (a ∷ b ∷ c ∷ d ∷ l) ≡ sum32
  unfolding little_endian32
  little_endian32-sum = rw (
    bit_or_high 8 b a (omega arith),
    bit_or_high 16 c (a + b * 2 ^ 8) (omega arith),
    bit_or_high 24 d (a + b * 2 ^ 8 + c * 2 ^ 16) (omega arith),
  )

module _ (a b c d : ℕ) (ha : a < 256) (hb : b < 256) (hc : c < 256) (hd : d < 256) where
  little_endian64-sum :
      (p q r s : ℕ)
      → p < 256
      → q < 256
      → r < 256
      → s < 256
      → little_endian64 (a ∷ b ∷ c ∷ d ∷ p ∷ q ∷ r ∷ s ∷ [])
        ≡ sum32 a b c d [] ha hb hc hd + p * 2 ^ 32 + q * 2 ^ 40 + r * 2 ^ 48 + s * 2 ^ 56
  unfolding little_endian64
  little_endian64-sum p q r s hp hq hr hs =
      let low : ℕ = sum32 a b c d [] ha hb hc hd in
      rw (
        little_endian32-sum a b c d (p ∷ q ∷ r ∷ s ∷ []) ha hb hc hd,
        bit_or_high 32 p low (omega arith),
        bit_or_high 40 q (low + p * 2 ^ 32) (omega arith),
        bit_or_high 48 r (low + p * 2 ^ 32 + q * 2 ^ 40) (omega arith),
        bit_or_high 56 s (low + p * 2 ^ 32 + q * 2 ^ 40 + r * 2 ^ 48) (omega arith),
      )

little_endian32-le32 : (v : ℕ) → IsU32 v → little_endian32 (le32 v) ≡ v
little_endian32-le32 v u =
    little_endian32-sum (v % 256) (v / 2 ^ 8 % 256) (v / 2 ^ 16 % 256) (v / 2 ^ 24 % 256) []
      (omega arith) (omega arith) (omega arith) (omega arith)
    ∙ omega arith

little_endian64-le64 : (v : ℕ) → IsU64 v → little_endian64 (le64 v) ≡ v
little_endian64-le64 v u =
    little_endian64-sum (v % 256) (v / 2 ^ 8 % 256) (v / 2 ^ 16 % 256) (v / 2 ^ 24 % 256)
      (omega arith) (omega arith) (omega arith) (omega arith) (v / 2 ^ 32 % 256) (v / 2 ^ 40 % 256)
      (v / 2 ^ 48 % 256) (v / 2 ^ 56 % 256) (omega arith) (omega arith) (omega arith) (omega arith)
    ∙ omega arith

masked32 :
    (v : ℕ)
    → (bit_and v 0xFF
        ∷ bit_and (v / 2 ^ 8) 0xFF
        ∷ bit_and (v / 2 ^ 16) 0xFF
        ∷ bit_and (v / 2 ^ 24) 0xFF
        ∷ [])
      ≡ le32 v
masked32 v = rw (
  bit_and_low 8 v,
  bit_and_low 8 (v / 2 ^ 8),
  bit_and_low 8 (v / 2 ^ 16),
  bit_and_low 8 (v / 2 ^ 24),
)

masked64 :
    (v : ℕ)
    → (bit_and v 0xFF
        ∷ bit_and (v / 2 ^ 8) 0xFF
        ∷ bit_and (v / 2 ^ 16) 0xFF
        ∷ bit_and (v / 2 ^ 24) 0xFF
        ∷ bit_and (v / 2 ^ 32) 0xFF
        ∷ bit_and (v / 2 ^ 40) 0xFF
        ∷ bit_and (v / 2 ^ 48) 0xFF
        ∷ bit_and (v / 2 ^ 56) 0xFF
        ∷ [])
      ≡ le64 v
masked64 v = rw (
  bit_and_low 8 v,
  bit_and_low 8 (v / 2 ^ 8),
  bit_and_low 8 (v / 2 ^ 16),
  bit_and_low 8 (v / 2 ^ 24),
  bit_and_low 8 (v / 2 ^ 32),
  bit_and_low 8 (v / 2 ^ 40),
  bit_and_low 8 (v / 2 ^ 48),
  bit_and_low 8 (v / 2 ^ 56),
)

-- A uint32 is written as its four bytes, the lowest first, and read back from them; a uint64 as its
-- eight bytes.
pub fixed-RoundTrip :
    (v w : ℕ)
    → IsU32 v
    → IsU64 w
    → Writes (λ S. pb_encode_fixed32 {S = S} v) (le32 v)
      × Reads (λ S. pb_decode_fixed32 {S = S}) (le32 v) v
      × Writes (λ S. pb_encode_fixed64 {S = S} w) (le64 w)
      × Reads (λ S. pb_decode_fixed64 {S = S}) (le64 w) w
unfolding pb_encode_fixed32 pb_decode_fixed32 pb_encode_fixed64 pb_decode_fixed64
fixed-RoundTrip v w u x = (
  λ S. rw (masked32 v) (pb_write-Writes (le32 v) S),
  λ S rest left e few.
      Reads-map (λ S. pb_read into 4) little_endian32 (le32 v) (le32 v)
        (pb_read-Reads into (le32 v)) S rest left e few
      ∙ ap (λ n. done n (at rest left e)) (little_endian32-le32 v u),
  λ S. rw (masked64 w) (pb_write-Writes (le64 w) S),
  λ S rest left e few.
      Reads-map (λ S. pb_read into 8) little_endian64 (le64 w) (le64 w)
        (pb_read-Reads into (le64 w)) S rest left e few
      ∙ ap (λ n. done n (at rest left e)) (little_endian64-le64 w x),
)
