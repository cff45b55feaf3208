-- ===== src/Pb/Varint/Safety.antt =====
-- The varint readers are safe on every stream; in particular their loops end within the fuel that
-- the definitions give them.
use solta.Base.{ℕ, zero, suc, ◌+◌, ◌*◌, ◌≤◌, ◌<◌, ◌%◌, ◌^◌, ◌≡◌, arith, leb, ltb, ◌==◌}
use solta.Base.{Bool-cases, false, if◌then◌else◌, bit_and, bit_or, inl, inr, List, [], ◌∷◌}
use solta.Base.{Res, done, failed, fault, crash, pure, Leaves, ◌>>◌}
use solta.Pb.Errmsg.{varint_overflow, invalid_wire_type}
use solta.Pb.Istream.{Istream, null, into, pb_read, pb_readbyte, first_byte}
use solta.Pb.Istream.Safety.{IsSafe, After, Takes, Takes-pure, Takes-return_error, Takes-bind}
use solta.Pb.Istream.Safety.{TakesBelow, TakesBelow-bind, TakesBelow-if, TakesBelow-fewer}
use solta.Pb.Istream.Safety.{Takes-fewer, Takes-if, Safe-bind, Takes-pb_readbyte, Takes-pb_read}
use solta.Pb.Varint.{varint_rounds, pb_decode_varint32, pb_decode_varint, skip_rounds}
use solta.Pb.Varint.{pb_skip_varint, pb_skip_string, pb_skip_field, raw_varint, read_raw_value}
use solta.Pb.Varint.{TagRead, tagged, eof, bad, broken, tag_outcome, pb_decode_tag}

module _ {S : Type 0} where
  Takes-varint_rounds :
      (width fuel bitpos result : ℕ)
      → bitpos < width + 7
      → width + 7 ≤ bitpos + 7 * fuel
      → Takes {S = S} 1 (varint_rounds width fuel bitpos result)
  unfolding varint_rounds
  Takes-varint_rounds width zero bitpos result lo hi = absurd (omega arith)
  Takes-varint_rounds width (suc fuel) bitpos result lo hi = elim (Bool-cases (leb width bitpos)) [
    | inl full ↦ rw full (Takes-return_error ℕ 1 varint_overflow)
    | inr room ↦ rw room (
        Takes-bind 1 0 pb_readbyte _ Takes-pb_readbyte λ byte.
          Takes-if 0 (bit_and byte 0x80 == 0) _ _ (Takes-pure ℕ (next byte)) (
            Takes-fewer 1 0 _ (omega arith) (
              Takes-varint_rounds width fuel (bitpos + 7) (next byte) (ground arith)
                (omega arith))))
  ]
    where
      next : ℕ → ℕ
      next byte = bit_or result (bit_and byte 0x7F * 2 ^ bitpos % 2 ^ width)

  -- A uint32 varint takes a byte at least. Under any stream that keeps the callback rules the
  -- decoder ends, and does not read outside the stream's array.
  pub Takes-pb_decode_varint32 : Takes {S = S} 1 pb_decode_varint32
  unfolding pb_decode_varint32
  Takes-pb_decode_varint32 = Takes-bind 1 0 pb_readbyte _ Takes-pb_readbyte λ byte.
      Takes-if 0 (bit_and byte 0x80 == 0) _ _ (Takes-pure ℕ byte)
        (Takes-fewer 1 0 _ (omega arith) (Takes-varint_rounds 32 6 7 _ (omega arith) (omega arith)))

  pub Takes-pb_decode_varint : Takes {S = S} 1 pb_decode_varint
  unfolding pb_decode_varint
  Takes-pb_decode_varint = Takes-varint_rounds 64 11 0 0 (omega arith) (omega arith)

  skip_rounds-TakesBelow : (fuel : ℕ) → TakesBelow {S = S} fuel 1 (skip_rounds fuel)
  unfolding skip_rounds
  skip_rounds-TakesBelow zero slack s safe h = absurd (omega arith)
  skip_rounds-TakesBelow (suc fuel) slack s safe h =
      TakesBelow-bind fuel (pb_read into 1) _ (Takes-pb_read into 1)
        (λ bytes.
          TakesBelow-if fuel 0 (bit_and (first_byte bytes) 0x80 == 0) _ _
            (λ slack s safe _. Takes-pure (Unit {0}) tt slack s safe)
            (TakesBelow-fewer fuel 1 0 _ (omega arith) (skip_rounds-TakesBelow fuel)))
        slack s safe h

  Takes-pb_skip_varint : Takes {S = S} 1 pb_skip_varint
  unfolding pb_skip_varint
  Takes-pb_skip_varint slack s safe =
      skip_rounds-TakesBelow (s.bytes_left + 1) slack s safe (omega arith)

  Takes-pb_skip_string : Takes {S = S} 1 pb_skip_string
  unfolding pb_skip_string
  Takes-pb_skip_string = Takes-bind 1 0 pb_decode_varint32 _ Takes-pb_decode_varint32 λ len.
      Safe-bind (pb_read null len) _ (Takes-fewer len 0 _ (omega arith) (Takes-pb_read null len))
        (λ _. Takes-pure _ tt)

  -- Skipping a field of any wire type takes a byte at least, ends, and reads nothing outside.
  pub Takes-pb_skip_field : (wire_type : ℕ) → Takes {S = S} 1 (pb_skip_field wire_type)
  unfolding pb_skip_field
  Takes-pb_skip_field wire_type = Takes-if 1 (wire_type == 0) _ _ Takes-pb_skip_varint (
      Takes-if 1 (wire_type == 1) _ _ (skip_fixed 8 (omega arith)) (
        Takes-if 1 (wire_type == 2) _ _ Takes-pb_skip_string (
          Takes-if 1 (wire_type == 5) _ _ (skip_fixed 4 (omega arith))
            (Takes-return_error (Unit {0}) 1 invalid_wire_type))))
    where
      skip_fixed : (n : ℕ) → 1 ≤ n → Takes {S = S} 1 (pb_read null n >> pure tt)
      skip_fixed n h =
          Takes-bind 1 0 (pb_read null n) _ (Takes-fewer n 1 _ h (Takes-pb_read null n))
            (λ _. Takes-pure (Unit {0}) tt)

  pub Takes-raw_varint : (room : ℕ) → Takes {S = S} 0 (raw_varint room)
  unfolding raw_varint
  Takes-raw_varint zero slack s safe = (safe, omega arith)
  Takes-raw_varint (suc room) slack s safe =
      Safe-bind (pb_read into 1) _ (Takes-fewer 1 0 _ (omega arith) (Takes-pb_read into 1))
        (λ bytes.
          Takes-if 0 (bit_and (first_byte bytes) 0x80 == 0) _ _
            (Takes-pure (List ℕ) (first_byte bytes ∷ []))
            (Safe-bind (raw_varint room) _ (Takes-raw_varint room)
              (λ later. Takes-pure (List ℕ) (first_byte bytes ∷ later))))
        slack s safe

  pub Takes-read_raw_value :
      (wire_type max_size : ℕ) → 8 ≤ max_size → Takes {S = S} 0 (read_raw_value wire_type max_size)
  unfolding read_raw_value
  Takes-read_raw_value wire_type max_size room =
      Takes-if 0 (wire_type == 0) _ _ (Takes-raw_varint max_size) (
        Takes-if 0 (wire_type == 1) _ _ (fixed 8 room) (
          Takes-if 0 (wire_type == 5) _ _ (fixed 4 (omega arith))
            (Takes-return_error (List ℕ) 0 invalid_wire_type)))
    where
      fixed :
          (n : ℕ)
          → n ≤ max_size
          → Takes {S = S} 0 (if ltb max_size n then crash else pb_read into n)
      fixed n le slack s safe =
          let fits : ltb max_size n ≡ false = ground arith in
          rw fits (Takes-fewer n 0 _ (omega arith) (Takes-pb_read into n) slack s safe)

  -- A stream with `P` if there is a tag, and with `Q` if there is none.
  abbrev pub LeavesTag : (Istream S → Type 0) → (Istream S → Type 0) → TagRead S → Type 0
  LeavesTag P Q (tagged wire_type tag t) = P t
  LeavesTag P Q (eof t) = Q t
  LeavesTag P Q (bad t) = Q t
  LeavesTag P Q broken = ⊥

  -- On a safe stream `pb_decode_tag` ends and does not read outside the stream's array. If it gives a
  -- tag, `bytes_left` is lower by one at least; if not, it is not higher; the stream stays safe.
  pub pb_decode_tag-Leaves :
      (slack : ℕ) (s : Istream S)
      → IsSafe slack s
      → LeavesTag (After slack 1 s.bytes_left) (After slack 0 s.bytes_left) (pb_decode_tag s)
  unfolding pb_decode_tag
  pb_decode_tag-Leaves slack s safe =
      go (pb_decode_varint32 s) (Takes-pb_decode_varint32 slack s safe)
    where
      go :
          (r : Res (Istream S) ℕ)
          → Leaves (After slack 1 s.bytes_left) (After slack 0 s.bytes_left) r
          → LeavesTag (After slack 1 s.bytes_left) (After slack 0 s.bytes_left) (tag_outcome r)
      go (done temp t) (safe_t, h) = elim (Bool-cases (temp == 0)) [
        | inl z ↦ rw z (safe_t, omega arith)
        | inr p ↦ rw p (safe_t, h)
      ]
      go (failed t) h = elim (Bool-cases (t.bytes_left == 0)) [ inl z ↦ rw z h | inr p ↦ rw p h ]
      go fault h = h
