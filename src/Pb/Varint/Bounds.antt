-- ===== src/Pb/Varint/Bounds.antt =====
-- Bounds on what the readers of varints, tags and raw values give from a safe stream.
use solta.Base.{ℕ, zero, suc, ◌+◌, ◌*◌, ◌≤◌, ◌<◌, ◌%◌, ◌^◌, ◌≡◌, arith, leb, ◌==◌}
use solta.Base.{Bool-cases, bit_and, bit_or, bit_or_lt, bit_and_low, inl, inr, List, length}
use solta.Base.{Res, done, failed, fault}
use solta.Pb.Istream.{Istream, into, pb_read, pb_readbyte, first_byte}
use solta.Pb.Istream.Safety.{IsSafe, Takes-pb_readbyte, Takes-pb_read, AreBytes}
use solta.Pb.Istream.Values.{
  Holds, Gives, Gives-if, Gives-bind, Gives-pb_read, Gives-pb_readbyte, first_byte_lt,
}
use solta.Pb.Varint.Safety.{Takes-raw_varint}
use solta.Pb.Varint.{varint_rounds, pb_decode_varint32, raw_varint, read_raw_value}
use solta.Pb.Varint.{TagRead, tagged, eof, bad, broken, tag_outcome, pb_decode_tag}

-- Bytes that fit into an array of `n`.
abbrev pub IsRaw : ℕ → List ℕ → Type 0
IsRaw n bytes = (length bytes ≤ n) × AreBytes bytes

module _ {S : Type 0} where
  Gives-varint_rounds :
      (width fuel bitpos result : ℕ)
      → result < 2 ^ width
      → Gives {S = S} (λ value. value < 2 ^ width) (varint_rounds width fuel bitpos result)
  unfolding varint_rounds
  Gives-varint_rounds width zero bitpos result u = λ slack s safe. tt
  Gives-varint_rounds width (suc fuel) bitpos result u =
      Gives-if _ (leb width bitpos) _ _ (λ slack s safe. tt)
        (Gives-bind 1 (λ byte. byte < 256) _ pb_readbyte _ Takes-pb_readbyte Gives-pb_readbyte
          λ byte b.
            Gives-if _ (bit_and byte 0x80 == 0) _ _ (λ slack s safe. next_lt byte)
              (Gives-varint_rounds width fuel (bitpos + 7) _ (next_lt byte)))
    where
      next_lt : (byte : ℕ) → bit_or result (bit_and byte 0x7F * 2 ^ bitpos % 2 ^ width) < 2 ^ width
      next_lt byte = bit_or_lt width result _ u (omega arith)

  Gives-pb_decode_varint32 : Gives {S = S} (λ value. value < 2 ^ 32) pb_decode_varint32
  unfolding pb_decode_varint32
  Gives-pb_decode_varint32 =
      Gives-bind 1 (λ byte. byte < 256) _ pb_readbyte _ Takes-pb_readbyte Gives-pb_readbyte
        λ byte b.
          Gives-if _ (bit_and byte 0x80 == 0) _ _ (λ slack s safe. omega (arith, b))
            (Gives-varint_rounds 32 6 7 (bit_and byte 0x7F) (omega (arith, bit_and_low 7 byte)))

  -- Field numbers have 29 bits.
  abbrev pub IsSmall : TagRead S → Type 0
  IsSmall (tagged wire_type tag t) = tag < 2 ^ 29
  IsSmall (eof t) = Unit
  IsSmall (bad t) = Unit
  IsSmall broken = Unit

  pub pb_decode_tag-IsSmall :
      (slack : ℕ) (s : Istream S) → IsSafe slack s → IsSmall (pb_decode_tag s)
  unfolding pb_decode_tag
  pb_decode_tag-IsSmall slack s safe =
      go (pb_decode_varint32 s) (Gives-pb_decode_varint32 slack s safe)
    where
      go : (r : Res (Istream S) ℕ) → Holds (λ value. value < 2 ^ 32) r → IsSmall (tag_outcome r)
      go (done temp t) h = elim (Bool-cases (temp == 0)) [
        | inl z ↦ rw z tt
        | inr p ↦ rw p (omega (arith, h))
      ]
      go (failed t) h = elim (Bool-cases (t.bytes_left == 0)) [ inl z ↦ rw z tt | inr p ↦ rw p tt ]
      go fault h = tt

  Gives-raw_varint : (room : ℕ) → Gives {S = S} (IsRaw room) (raw_varint room)
  unfolding raw_varint
  Gives-raw_varint zero = λ slack s safe. tt
  Gives-raw_varint (suc room) =
      Gives-bind 1 (λ bytes. (length bytes ≡ 1) × AreBytes bytes) _ (pb_read into 1) _
        (Takes-pb_read into 1) (Gives-pb_read 1)
        λ bytes b.
          Gives-if _ (bit_and (first_byte bytes) 0x80 == 0) _ _
            (λ slack s safe. (omega arith, (first_byte_lt bytes b.1, tt)))
            (Gives-bind 0 (IsRaw room) _ (raw_varint room) _ (Takes-raw_varint room)
              (Gives-raw_varint room)
              λ later h slack s safe. (omega (arith, h.0), (first_byte_lt bytes b.1, h.1)))

  pub Gives-read_raw_value :
      (wire_type : ℕ) → Gives {S = S} (IsRaw 10) (read_raw_value wire_type 10)
  unfolding read_raw_value
  Gives-read_raw_value wire_type = Gives-if _ (wire_type == 0) _ _ (Gives-raw_varint 10) (
      Gives-if _ (wire_type == 1) _ _ (read_fixed 8 (omega arith))
        (Gives-if _ (wire_type == 5) _ _ (read_fixed 4 (omega arith)) (λ slack s safe. tt)))
    where
      read_fixed : (n : ℕ) → n ≤ 10 → Gives {S = S} (IsRaw 10) (pb_read into n)
      read_fixed n le slack s safe = weaken (pb_read into n s) (Gives-pb_read n slack s safe)
        where
          weaken :
              (r : Res (Istream S) (List ℕ))
              → Holds (λ bytes. (length bytes ≡ n) × AreBytes bytes) r
              → Holds (IsRaw 10) r
          weaken (done bytes t) h = (omega (arith, h.0), h.1)
          weaken (failed t) h = tt
          weaken fault h = tt
