-- ===== src/Pb/Varint/Value.antt =====
-- The numbers that varints stand for, and what the decoders make of any varint.
use solta.Base.{ℕ, zero, suc, ◌+◌, ◌-◌, ◌*◌, ◌%◌, ◌^◌, ◌≤◌, ◌<◌, ◌≡◌, refl, sym, ap, ◌∙◌, arith}
use solta.Base.{bit_and, bit_or, bit_or_field, bit_and_low, bit_and_top, two_pow-add}
use solta.Base.{length, List, [], ◌∷◌, ◌++◌, Option, All}
use solta.Base.{done, failed}
use solta.Pb.Errmsg.{Errmsg, varint_overflow, end_of_stream, keep_first}
use solta.Pb.Istream.Buffer.{at, readbyte-at, readbyte_empty}
use solta.Pb.Varint.{varint_rounds, pb_decode_varint, pb_decode_varint32}
use native.Mathlib.Nat.{mod-add-mod}

-- A varint: bytes with the top bit set, and a last one without.
abbrev pub IsVarint : List ℕ → Type 0
IsVarint [] = ⊥
IsVarint (b ∷ []) = b < 128
IsVarint (b ∷ c ∷ bytes) = (128 ≤ b) × (b < 256) × IsVarint (c ∷ bytes)

-- The number that a varint stands for: groups of seven bits, the lowest first.
abbrev pub value : List ℕ → ℕ
value [] = 0
value (b ∷ bytes) = b % 128 + 128 * value bytes

-- `result` after the byte `b` at `bitpos` p.
abbrev next : ℕ → ℕ → ℕ → ℕ → ℕ
next w p acc b = (acc + b % 128 * 2 ^ p) % 2 ^ w

next-group :
    (w p d acc b : ℕ)
    → p + d ≡ w
    → acc < 2 ^ p
    → bit_or acc (bit_and b 0x7F * 2 ^ p % 2 ^ w) ≡ next w p acc b
next-group w p d acc b fits low =
    rw (bit_and_low 7 b, sym fits) (bit_or_field p d acc (b % 128) low)

next-lt : (w p acc b : ℕ) → acc < 2 ^ p → next w p acc b < 2 ^ (p + 7)
next-lt w p acc b low = grind (arith, two_pow-add p 7)

next-value :
    (w p acc b v : ℕ)
    → (next w p acc b + v * 2 ^ (p + 7)) % 2 ^ w ≡ (acc + (b % 128 + 128 * v) * 2 ^ p) % 2 ^ w
next-value w p acc b v =
    mod-add-mod (acc + b % 128 * 2 ^ p) (2 ^ w) (v * 2 ^ (p + 7))
    ∙ ap (λ (t : ℕ). t % 2 ^ w) (omega (arith, ap (λ (t : ℕ). v * t) (two_pow-add p 7)))

-- One byte of `varint_rounds`, the last or an earlier one.
module _ {S : Type 0} (w p d fuel acc b : ℕ) (rest : List ℕ) (left : ℕ) (e : Option Errmsg)
    (fits : p + d ≡ w) (room : 0 < d) (low : acc < 2 ^ p) (few : left + 1 < 2 ^ 64) where
  last_round :
      b < 128
      → varint_rounds {S = S} w (suc fuel) p acc (at (b ∷ rest) (left + 1) e)
        ≡ done (next w p acc b) (at rest left e)
  unfolding varint_rounds
  last_round h =
      ground (
        arith,
        readbyte-at {S = S} b rest left e few,
        next-group w p d acc b fits low,
        bit_and_top b,
      )

  inner_round :
      128 ≤ b
      → b < 256
      → varint_rounds {S = S} w (suc fuel) p acc (at (b ∷ rest) (left + 1) e)
        ≡ varint_rounds w fuel (p + 7) (next w p acc b) (at rest left e)
  unfolding varint_rounds
  inner_round h k =
      ground (
        arith,
        readbyte-at {S = S} b rest left e few,
        next-group w p d acc b fits low,
        bit_and_top b,
      )

-- A varint whose last group begins inside the word gives its number, cut off at the word's width.
rounds-value :
    {S : Type 0} (bytes rest : List ℕ) (w p d fuel acc left : ℕ) (e : Option Errmsg)
    → IsVarint bytes
    → p + d ≡ w
    → 7 * length bytes < d + 7
    → acc < 2 ^ p
    → length bytes ≤ fuel
    → length bytes + left < 2 ^ 64
    → varint_rounds {S = S} w fuel p acc (at (bytes ++ rest) (left + length bytes) e)
      ≡ done ((acc + value bytes * 2 ^ p) % 2 ^ w) (at rest left e)
rounds-value [] rest w p d fuel acc left e v fits room low enough few = absurd v
rounds-value (b ∷ bytes) rest w p d zero acc left e v fits room low enough few =
    absurd (omega arith)
rounds-value (b ∷ []) rest w p d (suc fuel) acc left e v fits room low enough few =
    last_round w p d fuel acc b rest left e fits (omega arith) low (omega arith) v
    ∙ ap (λ n. done (n % 2 ^ w) (at rest left e)) (omega arith)
rounds-value (b ∷ c ∷ bytes) rest w p d (suc fuel) acc left e v fits room low enough few =
    ap (λ n. varint_rounds w (suc fuel) p acc (at (b ∷ c ∷ bytes ++ rest) n e)) (omega arith)
    ∙ inner_round w p d fuel acc b (c ∷ bytes ++ rest) (left + length (c ∷ bytes)) e fits
        (omega arith) low (omega arith) v.0 v.1
    ∙ rounds-value (c ∷ bytes) rest w (p + 7) (d - 7) fuel (next w p acc b) left e v.2 (omega arith)
        (omega arith) (next-lt w p acc b low) (omega arith) (omega arith)
    ∙ ap (λ n. done n (at rest left e)) (next-value w p acc b (value (c ∷ bytes)))

-- Bytes that do not end a varint.
abbrev pub IsOpen : List ℕ → Type 0
IsOpen = All (λ b. (128 ≤ b) × (b < 256))

-- Open bytes up to the end of the word: the round after them finds no room.
rounds_overflow :
    {S : Type 0} (bytes rest : List ℕ) (w p fuel acc left : ℕ) (e : Option Errmsg)
    → IsOpen bytes
    → p + 7 * length bytes < w + 7
    → w ≤ p + 7 * length bytes
    → acc < 2 ^ p
    → length bytes < fuel
    → length bytes + left < 2 ^ 64
    → varint_rounds {S = S} w fuel p acc (at (bytes ++ rest) (left + length bytes) e)
      ≡ failed (at rest left (keep_first e varint_overflow))
rounds_overflow bytes rest w p zero acc left e o room full low enough few = absurd (omega arith)
rounds_overflow [] rest w p (suc fuel) acc left e o room full low enough few =
    unfold varint_rounds in ground arith
rounds_overflow (b ∷ bytes) rest w p (suc fuel) acc left e o room full low enough few =
    ap (λ n. varint_rounds w (suc fuel) p acc (at (b ∷ bytes ++ rest) n e)) (omega arith)
    ∙ inner_round w p (w - p) fuel acc b (bytes ++ rest) (left + length bytes) e (omega arith)
        (omega arith) low (omega arith) (o.0).0 (o.0).1
    ∙ rounds_overflow bytes rest w (p + 7) fuel (next w p acc b) left e o.1 (omega arith)
        (omega arith) (next-lt w p acc b low) (omega arith) (omega arith)

-- Open bytes and then the end of the stream, inside the word.
rounds_truncated :
    {S : Type 0} (bytes rest : List ℕ) (w p d fuel acc : ℕ) (e : Option Errmsg)
    → IsOpen bytes
    → p + d ≡ w
    → 7 * length bytes < d
    → acc < 2 ^ p
    → length bytes < fuel
    → length bytes < 2 ^ 64
    → varint_rounds {S = S} w fuel p acc (at (bytes ++ rest) (length bytes) e)
      ≡ failed (at rest 0 (keep_first e end_of_stream))
rounds_truncated bytes rest w p d zero acc e o fits room low enough few = absurd (omega arith)
rounds_truncated {S} [] rest w p d (suc fuel) acc e o fits room low enough few =
    unfold varint_rounds in ground (arith, readbyte_empty {S = S} rest e)
rounds_truncated (b ∷ bytes) rest w p d (suc fuel) acc e o fits room low enough few =
    ap (λ n. varint_rounds w (suc fuel) p acc (at (b ∷ bytes ++ rest) n e)) (omega arith)
    ∙ inner_round w p d fuel acc b (bytes ++ rest) (length bytes) e fits (omega arith) low
        (omega arith) (o.0).0 (o.0).1
    ∙ rounds_truncated bytes rest w (p + 7) (d - 7) fuel (next w p acc b) e o.1 (omega arith)
        (omega arith) (next-lt w p acc b low) (omega arith) (omega arith)

-- A varint of up to ten bytes decodes to the number that it stands for, cut off at 64 bits, and
-- its bytes, no more, are taken from the stream. The stream has fewer than 2 ^ 64 bytes.
pub pb_decode_varint-value :
    {S : Type 0} (bytes rest : List ℕ) (left : ℕ) (e : Option Errmsg)
    → IsVarint bytes
    → length bytes ≤ 10
    → length bytes + left < 2 ^ 64
    → pb_decode_varint {S = S} (at (bytes ++ rest) (left + length bytes) e)
      ≡ done (value bytes % 2 ^ 64) (at rest left e)
unfolding pb_decode_varint
pb_decode_varint-value bytes rest left e v short few =
    rounds-value bytes rest 64 0 64 11 0 left e v refl (omega arith) (omega arith) (omega arith) few
    ∙ ap (λ n. done (n % 2 ^ 64) (at rest left e)) (omega arith)

first32 :
    {S : Type 0} (b : ℕ) (rest : List ℕ) (left : ℕ) (e : Option Errmsg)
    → 128 ≤ b
    → b < 256
    → left + 1 < 2 ^ 64
    → pb_decode_varint32 {S = S} (at (b ∷ rest) (left + 1) e)
      ≡ varint_rounds 32 6 7 (b % 128) (at rest left e)
unfolding pb_decode_varint32
first32 {S} b rest left e h k few =
    ground (arith, readbyte-at {S = S} b rest left e few, bit_and_top b, bit_and_low 7 b)

-- A varint of up to five bytes decodes to the number that it stands for, cut off at 32 bits, and
-- its bytes, no more, are taken from the stream. The stream has fewer than 2 ^ 64 bytes.
pub pb_decode_varint32-value :
    {S : Type 0} (bytes rest : List ℕ) (left : ℕ) (e : Option Errmsg)
    → IsVarint bytes
    → length bytes ≤ 5
    → length bytes + left < 2 ^ 64
    → pb_decode_varint32 {S = S} (at (bytes ++ rest) (left + length bytes) e)
      ≡ done (value bytes % 2 ^ 32) (at rest left e)
unfolding pb_decode_varint32
pb_decode_varint32-value [] rest left e v short few = absurd v
pb_decode_varint32-value {S} (b ∷ []) rest left e v short few =
    ground (arith, readbyte-at {S = S} b rest left e (omega arith), bit_and_top b)
pb_decode_varint32-value {S} (b ∷ c ∷ bytes) rest left e v short few =
    ap (λ n. pb_decode_varint32 (at (b ∷ c ∷ bytes ++ rest) n e)) (omega arith)
    ∙ first32 b (c ∷ bytes ++ rest) (left + length (c ∷ bytes)) e v.0 v.1 (omega arith)
    ∙ rounds-value (c ∷ bytes) rest 32 7 25 6 (b % 128) left e v.2 refl (omega arith) (omega arith)
        (omega arith) (omega arith)
    ∙ ap (λ n. done (n % 2 ^ 32) (at rest left e)) (omega arith)

-- The end of a stream after fewer than ten bytes of a varint, none of them its last, is an error
-- that leaves no byte.
pub pb_decode_varint_truncated :
    {S : Type 0} (bytes rest : List ℕ) (e : Option Errmsg)
    → IsOpen bytes
    → length bytes < 10
    → pb_decode_varint {S = S} (at (bytes ++ rest) (length bytes) e)
      ≡ failed (at rest 0 (keep_first e end_of_stream))
unfolding pb_decode_varint
pb_decode_varint_truncated bytes rest e o short =
    rounds_truncated bytes rest 64 0 64 11 0 e o refl (omega arith) (omega arith) (omega arith)
      (omega arith)

-- Ten bytes that do not end a varint are an error of the 64-bit decoder, and five of the 32-bit
-- one; just these bytes are taken. The streams have fewer than 2 ^ 64 bytes.
pub decode_varint_overflow :
    {S : Type 0} (bytes more rest : List ℕ) (left : ℕ) (e : Option Errmsg)
    → IsOpen bytes
    → IsOpen more
    → length bytes ≡ 10
    → length more ≡ 5
    → left + 10 < 2 ^ 64
    → (pb_decode_varint {S = S} (at (bytes ++ rest) (left + 10) e)
        ≡ failed (at rest left (keep_first e varint_overflow)))
      × (pb_decode_varint32 {S = S} (at (more ++ rest) (left + 5) e)
          ≡ failed (at rest left (keep_first e varint_overflow)))
unfolding pb_decode_varint
decode_varint_overflow bytes [] rest left e o o' ten five few = absurd (omega arith)
decode_varint_overflow bytes (b ∷ more) rest left e o o' ten five few = (
  ap (λ n. varint_rounds 64 11 0 0 (at (bytes ++ rest) n e)) (omega arith)
      ∙ rounds_overflow bytes rest 64 0 11 0 left e o (omega arith) (omega arith) (omega arith)
          (omega arith) (omega arith),
  ap (λ n. pb_decode_varint32 (at (b ∷ more ++ rest) n e)) (omega arith)
      ∙ first32 b (more ++ rest) (left + length more) e (o'.0).0 (o'.0).1 (omega arith)
      ∙ rounds_overflow more rest 32 7 6 (b % 128) left e o'.1 (omega arith) (omega arith)
          (omega arith) (omega arith) (omega arith),
)
