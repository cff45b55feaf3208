-- ===== src/Pb/Message/Required/Words.antt =====
-- The check for required fields at the end of `pb_decode_noinit`, as a comparison of the two words
-- of `fields_seen`.
use solta.Base.{
  ℕ, zero, suc, ◌-◌, ◌/◌, ◌%◌, ◌<◌, ◌^◌, ◌≡◌, ◌≢◌, refl, sym, subst, arith, ltb, ◌==◌, ==→eq, ◌&&◌,
  ◌||◌, Bool, true, false, Bool-cases, inl, inr, if◌then◌else◌,
}
use solta.Base.{done, M, pure}
use solta.Pb.Errmsg.{missing_required_field}
use solta.Pb.Decode.Scalar.{Decoding}
use solta.Pb.Message.Decoding.{stop}
use solta.Pb.Message.Decode.{Seen, allbits, check_words, check_required}

-- A test of the numbers below a bound.
abbrev pub all_below : ℕ → (ℕ → Bool) → Bool
all_below zero P = true
all_below (suc n) P = P n && all_below n P

pub all_below-at : (n k : ℕ) (P : ℕ → Bool) → all_below n P ≡ true → k < n → P k ≡ true
all_below-at zero k P h less = absurd (omega arith)
all_below-at (suc n) k P h less = elim (Bool-cases (k == n)) [
  | inl same ↦ let e : k ≡ n = ==→eq k n same in subst (λ j. P j ≡ true) (sym e) (ground (arith, h))
  | inr other ↦ all_below-at n k P (ground (arith, h)) (ground arith)
]

-- The mask of the lowest `k` bits.
mask : (k : ℕ) → k < 32 → allbits / 2 ^ (32 - k) ≡ 2 ^ k - 1
mask k less = ==→eq _ _ (all_below-at 32 k (λ k. allbits / 2 ^ (32 - k) == 2 ^ k - 1) refl less)

-- The words are those with the bits of the first `count` required fields.
abbrev pub equal_words : Seen → ℕ → Bool
equal_words seen count =
    if ltb count 32
    then count == 0 || seen.low == 2 ^ count - 1
    else seen.low == 2 ^ 32 - 1 && seen.high == 2 ^ (count - 32) - 1

module _ {S : Type 0} where
  apply_if :
      (b : Bool) (m l : M (Decoding S) (Unit {0})) (s : Decoding S)
      → (if b then m else l) s ≡ (if b then m s else l s)
  apply_if true m l s = refl
  apply_if false m l s = refl

  pub check_required-words :
      (seen : Seen) (count : ℕ) (s : Decoding S)
      → count < 64
      → count ≢ 32
      → check_required seen count s
        ≡ (if equal_words seen count then done tt s else stop missing_required_field s)
  unfolding check_required check_words
  check_required-words seen count s few not_word = elim (Bool-cases (ltb count 32)) [
    | inl one_word ↦ elim (Bool-cases (count == 0)) [
      | inl none_required ↦ rw (one_word, none_required) refl
      | inr some_required ↦
          let whole : count / 32 ≡ 0 = ground arith in
          let rest : count % 32 ≡ count = ground arith in
          rw (one_word, whole, rest, some_required, mask count (ground arith))
            (apply_if (seen.low == 2 ^ count - 1) (pure tt) (stop missing_required_field) s)
    ]
    | inr two_words ↦
        let some_required : (count == 0) ≡ false = ground arith in
        let whole : count / 32 ≡ 1 = ground (arith, not_word) in
        let rest : count % 32 ≡ count - 32 = ground (arith, not_word) in
        let some_rest : (count - 32 == 0) ≡ false = ground (arith, not_word) in
        elim (Bool-cases (seen.low == 2 ^ 32 - 1)) [
          | inl full ↦
              rw
                (
                  two_words,
                  some_required,
                  whole,
                  rest,
                  some_rest,
                  full,
                  mask (count - 32) (ground arith),
                )
                (apply_if (seen.high == 2 ^ (count - 32) - 1) (pure tt)
                  (stop missing_required_field) s)
          | inr missing ↦ rw (two_words, some_required, whole, rest, some_rest, missing) refl
        ]
  ]
