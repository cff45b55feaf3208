-- ===== src/Pb/Varint/Raw.antt =====
-- What `read_raw_value` puts into its buffer: a whole value of the wire type, inside the buffer.
use solta.Base.{ℕ, zero, suc, ◌≤◌, ◌<◌, ◌≡◌, refl, arith, ◌==◌, ==→eq, ◌⊎◌, inl, inr}
use solta.Base.{
  Bool, Bool-cases, bit_and, bit_and_top, List, [], ◌∷◌, length, if◌then◌else◌, true, false, ltb,
}
use solta.Base.{Res, done, failed, fault, crash, M}
use solta.Pb.Istream.{Istream, into, pb_read, first_byte}
use solta.Pb.Istream.Safety.{Takes-pb_read, AreBytes}
use solta.Pb.Istream.Values.{Holds, Gives, Gives-bind, Gives-pb_read, first_byte_lt}
use solta.Pb.Varint.{raw_varint, read_raw_value}
use solta.Pb.Varint.Safety.{Takes-raw_varint}
use solta.Pb.Varint.Value.{IsVarint}

-- A varint up to its last byte, or the bytes of a fixed-width value.
abbrev pub IsWhole : ℕ → List ℕ → Type 0
IsWhole wire_type bytes =
    ((wire_type ≡ 0) × IsVarint bytes)
    ⊎ ((wire_type ≡ 1) × (length bytes ≡ 8))
    ⊎ ((wire_type ≡ 5) × (length bytes ≡ 4))

IsVarint-cons : (b : ℕ) (bytes : List ℕ) → 128 ≤ b → b < 256 → IsVarint bytes → IsVarint (b ∷ bytes)
IsVarint-cons b [] low high h = absurd h
IsVarint-cons b (c ∷ bytes) low high h = (low, high, h)

module _ {S : Type 0} where
  Gives-raw_varint-IsVarint :
      (room : ℕ) → Gives {S = S} (λ bytes. (length bytes ≤ room) × IsVarint bytes) (raw_varint room)
  unfolding raw_varint
  Gives-raw_varint-IsVarint zero = λ slack s safe. tt
  Gives-raw_varint-IsVarint (suc room) =
      Gives-bind 1 (λ bytes. (length bytes ≡ 1) × AreBytes bytes) _ (pb_read into 1) _
        (Takes-pb_read into 1) (Gives-pb_read 1)
        λ bytes h slack s safe.
          let b = first_byte bytes in
          let small = first_byte_lt bytes h.1 in
          elim (Bool-cases (bit_and b 0x80 == 0)) [
            | inl last ↦ rw last (omega arith, ground (arith, bit_and_top b small))
            | inr more ↦ rw more (
                Gives-bind 0 (λ later. (length later ≤ room) × IsVarint later) _ (raw_varint room) _
                  (Takes-raw_varint room) (Gives-raw_varint-IsVarint room)
                  (λ later k slack s safe. (
                    omega (arith, k.0),
                    IsVarint-cons b later (ground (arith, bit_and_top b small)) small k.1,
                  ))
                  slack s safe)
          ]

  Holds-weaken :
      {A : Type 0} (P Q : A → Type 0) (r : Res (Istream S) A)
      → ((a : A) → P a → Q a)
      → Holds P r
      → Holds Q r
  Holds-weaken P Q (done a t) imp h = imp a h
  Holds-weaken P Q (failed t) imp h = tt
  Holds-weaken P Q fault imp h = tt

  -- `Gives-if`, with the outcome of the test in either branch.
  Gives-test :
      {A : Type 0} (P : A → Type 0) (b : Bool) (m l : M (Istream S) A)
      → (b ≡ true → Gives P m)
      → (b ≡ false → Gives P l)
      → Gives P (if b then m else l)
  Gives-test P true m l h k = h refl
  Gives-test P false m l h k = k refl

  Gives-fixed :
      (n max_size wire_type : ℕ)
      → n ≤ max_size
      → ((bytes : List ℕ) → length bytes ≡ n → IsWhole wire_type bytes)
      → Gives {S = S}
          (λ bytes. (length bytes ≤ max_size) × IsWhole wire_type bytes)
          (if ltb max_size n then crash else pb_read into n)
  Gives-fixed n max_size wire_type le shape slack s safe =
      let fits : ltb max_size n ≡ false = ground arith in
      rw fits (
        Holds-weaken (λ bytes. (length bytes ≡ n) × AreBytes bytes) _ (pb_read into n s)
          (λ bytes h. (omega (arith, h.0), shape bytes h.0)) (Gives-pb_read n slack s safe))

  pub Gives-read_raw_value-IsWhole :
      (wire_type max_size : ℕ)
      → 8 ≤ max_size
      → Gives {S = S}
          (λ bytes. (length bytes ≤ max_size) × IsWhole wire_type bytes)
          (read_raw_value wire_type max_size)
  unfolding read_raw_value
  Gives-read_raw_value-IsWhole wire_type max_size room =
      Gives-test _ (wire_type == 0) _ _
        (λ varint slack s safe.
          Holds-weaken (λ bytes. (length bytes ≤ max_size) × IsVarint bytes) _
            (raw_varint max_size s) (λ bytes h. (h.0, inl (==→eq _ _ varint, h.1)))
            (Gives-raw_varint-IsVarint max_size slack s safe))
        (λ not_varint.
          Gives-test _ (wire_type == 1) _ _
            (λ wide.
              Gives-fixed 8 max_size wire_type room (λ bytes h. inr (inl (==→eq _ _ wide, h))))
            (λ not_wide.
              Gives-test _ (wire_type == 5) _ _
                (λ narrow.
                  Gives-fixed 4 max_size wire_type (omega arith)
                    (λ bytes h. inr (inr (==→eq _ _ narrow, h))))
                (λ unknown slack s safe. tt)))
