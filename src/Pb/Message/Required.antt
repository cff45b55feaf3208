-- ===== src/Pb/Message/Required.antt =====
-- The check for required fields at the end of `pb_decode_noinit`, against a test of each field's bit.
use solta.Base.{
  ℕ, zero, suc, ◌+◌, ◌-◌, ◌*◌, ◌/◌, ◌%◌, ◌≤◌, ◌<◌, ◌^◌, ◌≡◌, ◌≢◌, refl, sym, ap, ◌∙◌, arith, ltb,
  ◌==◌, ==→eq, ◌&&◌, ◌||◌, Bool, true, false, Bool-cases, inl, inr, if◌then◌else◌,
}
use native.Mathlib.Nat.{pow-suc, one-le-pow}
use solta.Base.{done}
use solta.Pb.Errmsg.{missing_required_field}
use solta.Pb.Decode.Scalar.{Decoding}
use solta.Pb.Message.Decoding.{stop}
use solta.Pb.Message.Decode.{Seen, check_required}
use solta.Pb.Message.Required.Words.{all_below, all_below-at, equal_words, check_required-words}
pub mod Words

-- Bit `k` of a word.
abbrev pub bit : ℕ → ℕ → Bool
bit zero x = x % 2 == 1
bit (suc k) x = bit k (x / 2)

-- The bit of field `k` in `fields_seen`.
abbrev pub is_seen : Seen → ℕ → Bool
is_seen seen k = if ltb k 32 then bit k seen.low else bit (k - 32) seen.high

-- The first `count` required fields have their bits.
abbrev pub all_seen : Seen → ℕ → Bool
all_seen seen count = all_below count (is_seen seen)

-- No bit is set but those of the first `count` required fields.
abbrev pub IsSeen : Seen → ℕ → Type 0
IsSeen seen count =
    (seen.low < 2 ^ (if ltb count 32 then count else 32)) × (seen.high < 2 ^ (count - 32))

all_below-true : (n : ℕ) (P : ℕ → Bool) → ((k : ℕ) → k < n → P k ≡ true) → all_below n P ≡ true
all_below-true zero P h = refl
all_below-true (suc n) P h = rw (h n (omega arith)) (all_below-true n P λ k less. h k (omega arith))

Bool_same : (a b : Bool) → (a ≡ true → b ≡ true) → (b ≡ true → a ≡ true) → a ≡ b
Bool_same true b h k = sym (h refl)
Bool_same false true h k = k refl
Bool_same false false h k = refl

bit_full : (n k : ℕ) → k < n → bit k (2 ^ n - 1) ≡ true
bit_full zero k less = absurd (omega arith)
bit_full (suc n) zero less = ground (arith, pow-suc 2 n, one-le-pow n 2 (omega arith))
bit_full (suc n) (suc k) less =
    let half : (2 ^ suc n - 1) / 2 ≡ 2 ^ n - 1 =
      omega (arith, pow-suc 2 n, one-le-pow n 2 (omega arith)) in
    rw half (bit_full n k (omega arith))

full_of_bits : (n x : ℕ) → x < 2 ^ n → ((k : ℕ) → k < n → bit k x ≡ true) → x ≡ 2 ^ n - 1
full_of_bits zero x small h = omega arith
full_of_bits (suc n) x small h =
    let odd : x % 2 ≡ 1 = ==→eq _ _ (h zero (omega arith)) in
    let rest : x / 2 ≡ 2 ^ n - 1 =
      full_of_bits n (x / 2) (omega (arith, pow-suc 2 n)) λ k less. h (suc k) (omega arith) in
    omega (arith, odd, rest, pow-suc 2 n, one-le-pow n 2 (omega arith))

is_seen-low : (seen : Seen) (k : ℕ) → k < 32 → is_seen seen k ≡ bit k seen.low
is_seen-low seen k less = let low : ltb k 32 ≡ true = ground arith in rw low refl

is_seen-high : (seen : Seen) (k : ℕ) → 32 ≤ k → is_seen seen k ≡ bit (k - 32) seen.high
is_seen-high seen k le = let high : ltb k 32 ≡ false = ground arith in rw high refl

all_seen-one_word :
    (seen : Seen) (count : ℕ)
    → count < 32
    → seen.low < 2 ^ count
    → all_seen seen count ≡ (count == 0 || seen.low == 2 ^ count - 1)
all_seen-one_word seen count few small =
    Bool_same (all_seen seen count) (count == 0 || seen.low == 2 ^ count - 1)
      (λ h.
        let full : seen.low ≡ 2 ^ count - 1 = full_of_bits count seen.low small λ k less.
          sym (is_seen-low seen k (omega (arith, few, less)))
          ∙ all_below-at count k (is_seen seen) h less in
        ground (arith, full))
      (λ h. all_below-true count (is_seen seen) λ k less.
        let full : seen.low ≡ 2 ^ count - 1 = ground (arith, h, less) in
        is_seen-low seen k (omega (arith, few, less)) ∙ ap (bit k) full ∙ bit_full count k less)

all_seen-two_words :
    (seen : Seen) (count : ℕ)
    → 32 ≤ count
    → seen.low < 2 ^ 32
    → seen.high < 2 ^ (count - 32)
    → all_seen seen count ≡ (seen.low == 2 ^ 32 - 1 && seen.high == 2 ^ (count - 32) - 1)
all_seen-two_words seen count many small_low small_high =
    Bool_same (all_seen seen count) (seen.low == 2 ^ 32 - 1 && seen.high == 2 ^ (count - 32) - 1)
      (λ h.
        let low : seen.low ≡ 2 ^ 32 - 1 = full_of_bits 32 seen.low small_low λ k less.
          sym (is_seen-low seen k less)
          ∙ all_below-at count k (is_seen seen) h (omega (arith, less, many)) in
        let high : seen.high ≡ 2 ^ (count - 32) - 1 =
          full_of_bits (count - 32) seen.high small_high λ k less.
            let same : k + 32 - 32 ≡ k = omega arith in
            sym (is_seen-high seen (k + 32) (omega arith) ∙ ap (λ j. bit j seen.high) same)
            ∙ all_below-at count (k + 32) (is_seen seen) h (omega (arith, less, many)) in
        ground (arith, low, high))
      (λ h.
        let low : seen.low ≡ 2 ^ 32 - 1 = ground (arith, h) in
        let high : seen.high ≡ 2 ^ (count - 32) - 1 = ground (arith, h) in
        all_below-true count (is_seen seen) λ k less. elim (Bool-cases (ltb k 32)) [
          | inl in_low ↦
              is_seen-low seen k (ground arith) ∙ ap (bit k) low ∙ bit_full 32 k (ground arith)
          | inr in_high ↦
              is_seen-high seen k (ground arith)
              ∙ ap (bit (k - 32)) high
              ∙ bit_full (count - 32) (k - 32) (ground (arith, less))
        ])

-- The words of which just the first `count` bits can be set have all of them if they are equal to
-- the masks.
all_seen-equal_words :
    (seen : Seen) (count : ℕ) → IsSeen seen count → all_seen seen count ≡ equal_words seen count
all_seen-equal_words seen count only = elim (Bool-cases (ltb count 32)) [
  | inl one_word ↦
      let small : seen.low < 2 ^ count = rw one_word at (only.0) in
      rw one_word (all_seen-one_word seen count (ground arith) small)
  | inr two_words ↦
      let small : seen.low < 2 ^ 32 = rw two_words at (only.0) in
      rw two_words (all_seen-two_words seen count (ground arith) small only.1)
]

module _ {S : Type 0} where
  -- With fewer than 64 required fields, but not 32, and where no bit of `fields_seen` is set but
  -- those of these fields: the check at the end of `pb_decode_noinit` succeeds if the bit of each
  -- required field is set, and else fails with the error for a missing required field; it changes
  -- nothing but the error message.
  pub check_required-all_seen :
      (seen : Seen) (count : ℕ) (s : Decoding S)
      → count < 64
      → count ≢ 32
      → IsSeen seen count
      → check_required seen count s
        ≡ (if all_seen seen count then done tt s else stop missing_required_field s)
  check_required-all_seen seen count s few not_word only =
      rw (all_seen-equal_words seen count only) (check_required-words seen count s few not_word)
