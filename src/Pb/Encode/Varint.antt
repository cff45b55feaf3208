-- ===== src/Pb/Encode/Varint.antt =====
-- The bytes of an encoded number.
use solta.Base.{ℕ, zero, suc, ◌+◌, ◌/◌, ◌%◌, ◌^◌, ◌≤◌, ◌<◌, ◌≡◌, refl, ap, arith}
use solta.Base.{
  bit_and, bit_or, bit_or_high, bit_and_low, ltb, leb, ◌==◌, if◌then◌else◌, Bool-cases,
}
use solta.Base.{length, List, [], ◌∷◌, some, inl, inr, IsU64}
use mathlib.Core.Option
use native.Mathlib.Nat.{pow-suc}
use solta.Pb.Ostream.{pb_write}
use solta.Pb.Varint.Value.{IsVarint, value}
use solta.Pb.Encode.{varint_groups, clear_last, pb_encode_varint}

-- The varint of a number below 128 ^ (k + 1).
unfoldable pub varint : ℕ → ℕ → List ℕ
varint zero v = v ∷ []
varint (suc k) v =
    let rest = varint k (v / 128) in if ltb v 128 then v ∷ [] else (v % 128 + 128) ∷ rest

-- As the loop leaves it: the top bit of the last byte is set too.
open_varint : ℕ → ℕ → List ℕ
open_varint zero v = (v % 128 + 128) ∷ []
open_varint (suc k) v =
    let rest = open_varint k (v / 128) in
    if ltb v 128 then (v % 128 + 128) ∷ [] else (v % 128 + 128) ∷ rest

group-byte : (v : ℕ) → bit_or (bit_and v 0x7F) 0x80 % 256 ≡ v % 128 + 128
group-byte v = rw (bit_and_low 7 v, bit_or_high 7 1 (v % 128) (omega arith)) (omega arith)

groups_zero : (room : ℕ) → varint_groups room 0 ≡ some []
unfolding varint_groups
groups_zero zero = refl
groups_zero (suc room) = refl

groups_step :
    (room v : ℕ)
    → 0 < v
    → varint_groups (suc room) v
      ≡ Option.map (λ l. (v % 128 + 128) ∷ l) (varint_groups room (v / 128))
unfolding varint_groups
groups_step room v pos = elim (Bool-cases (v == 0)) [
  | inl z ↦ absurd (ground arith)
  | inr p ↦ rw (p, group-byte v)
]

groups-open : (k v : ℕ) → 0 < v → v < 128 ^ suc k → varint_groups (suc k) v ≡ some (open_varint k v)
unfolding open_varint
groups-open zero v pos h = rw (groups_step 0 v pos) (ground (arith, groups_zero 0))
groups-open (suc k) v pos h = rw (groups_step (suc k) v pos) (elim (Bool-cases (ltb v 128)) [
  | inl small ↦ rw (small) (ground (arith, groups_zero (suc k)))
  | inr large ↦
      rw (large, groups-open k (v / 128) (ground arith) (omega (arith, pow-suc 128 (suc k))))
])

clear-cons : (b k v : ℕ) → clear_last (b ∷ open_varint k v) ≡ b ∷ clear_last (open_varint k v)
unfolding clear_last open_varint
clear-cons b zero v = refl
clear-cons b (suc k) v = elim (Bool-cases (ltb v 128)) [
  | inl small ↦ rw small
  | inr large ↦ rw large
]

cleared : (v : ℕ) → v < 128 → bit_and (v % 128 + 128) 0x7F ≡ v
cleared v h = rw (bit_and_low 7 (v % 128 + 128)) (omega arith)

clear-open : (k v : ℕ) → v < 128 ^ suc k → clear_last (open_varint k v) ≡ varint k v
unfolding open_varint varint
clear-open zero v h = unfold clear_last in ap (λ b. b ∷ []) (cleared v h)
clear-open (suc k) v h = elim (Bool-cases (ltb v 128)) [
  | inl small ↦ rw small (unfold clear_last in ap (λ b. b ∷ []) (cleared v (ground arith)))
  | inr large ↦ rw (
    large,
    clear-cons (v % 128 + 128) k (v / 128),
    clear-open k (v / 128) (omega (arith, pow-suc 128 (suc k))),
  )
]

length-open : (k v : ℕ) → length (open_varint k v) ≡ length (varint k v)
unfolding open_varint varint
length-open zero v = refl
length-open (suc k) v = elim (Bool-cases (ltb v 128)) [
  | inl small ↦ rw small
  | inr large ↦ rw (large, length-open k (v / 128))
]

varint_small : (k v : ℕ) → v < 128 → varint (suc k) v ≡ v ∷ []
unfolding varint
varint_small k v h = ground arith

-- For any uint64, `pb_encode_varint` is one call of `pb_write` with the varint of its argument, as
-- the recursive definition gives it.
pub pb_encode_varint-varint :
    {S : Type 0} (v : ℕ)
    → IsU64 v
    → pb_encode_varint {S = S} v ≡ pb_write (varint 9 v) (length (varint 9 v))
unfolding pb_encode_varint
pb_encode_varint-varint v h = elim (Bool-cases (leb v 0x7F)) [
  | inl small ↦
      rw (small, varint_small 8 v (ground arith)) (ap (λ b. pb_write (b ∷ []) 1) (ground arith))
  | inr large ↦ rw (
    large,
    groups-open 9 v (ground arith) (omega arith),
    clear-open 9 v (omega arith),
    length-open 9 v,
  )
]

IsVarint-cons : (b k v : ℕ) → 128 ≤ b → b < 256 → IsVarint (varint k v) → IsVarint (b ∷ varint k v)
unfolding varint
IsVarint-cons b zero v h u i = (h, u, i)
IsVarint-cons b (suc k) v h u i = elim (Bool-cases (ltb v 128)) [
  | inl small ↦ rw small (h, u, rw small at i)
  | inr large ↦ rw large (h, u, rw large at i)
]

pub varint-IsVarint : (k v : ℕ) → v < 128 ^ suc k → IsVarint (varint k v)
unfolding varint
varint-IsVarint zero v h = h
varint-IsVarint (suc k) v h = elim (Bool-cases (ltb v 128)) [
  | inl small ↦ rw small (ground arith)
  | inr large ↦ rw large (
      IsVarint-cons (v % 128 + 128) k (v / 128) (omega arith) (omega arith)
        (varint-IsVarint k (v / 128) (omega (arith, pow-suc 128 (suc k)))))
]

pub value-varint : (k v : ℕ) → v < 128 ^ suc k → value (varint k v) ≡ v
unfolding varint
value-varint zero v h = omega arith
value-varint (suc k) v h = elim (Bool-cases (ltb v 128)) [
  | inl small ↦ rw small (ground arith)
  | inr large ↦
      rw large (omega (arith, value-varint k (v / 128) (omega (arith, pow-suc 128 (suc k)))))
]

pub length-varint : (k v : ℕ) → (1 ≤ length (varint k v)) × (length (varint k v) ≤ k + 1)
unfolding varint
length-varint zero v = omega arith
length-varint (suc k) v = elim (Bool-cases (ltb v 128)) [
  | inl small ↦ rw small (omega arith)
  | inr large ↦ rw large (omega (arith, length-varint k (v / 128)))
]

-- Seven bits take a byte.
pub length-varint_short : (k j v : ℕ) → v < 128 ^ suc j → length (varint k v) ≤ j + 1
unfolding varint
length-varint_short zero j v h = omega arith
length-varint_short (suc k) zero v h = ground arith
length-varint_short (suc k) (suc j) v h = elim (Bool-cases (ltb v 128)) [
  | inl small ↦ rw small (omega arith)
  | inr large ↦
      rw large
        (omega (arith, length-varint_short k j (v / 128) (omega (arith, pow-suc 128 (suc j)))))
]
