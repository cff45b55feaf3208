-- ===== src/Pb/Field/Iter/Find.antt =====
-- `pb_field_iter_find` searches every entry once, from where the iterator stands.
use solta.Base.{
  ℕ, zero, suc, ◌+◌, ◌≤◌, ◌<◌, ◌≡◌, refl, sym, ap, subst, ◌∙◌, arith, ◌==◌, if◌then◌else◌,
}
use solta.Base.{Bool-cases, ==→eq, Bool, true, false, not, ◌&&◌, ◌⊎◌, inl, inr, List, ◌∷◌, length}
use solta.Base.{Option, some}
use solta.Pb.Field.Ltype
use solta.Pb.Field.{Field, field_at, ltype}
use solta.Pb.Field.Iter.{FieldIter, pos, pb_field_iter_begin, pb_field_iter_next, find_rounds}
use solta.Pb.Field.Iter.{pb_field_iter_find}
use solta.Pb.Field.Iter.Place.{IsTagged, standing, next-standing, next_last}

-- The entry is a field with this tag, and no placeholder for extensions.
abbrev pub Matches : ℕ → Field → Type 0
Matches tag f = (f.tag ≡ tag) × ((ltype f.type == Ltype.extension) ≡ false)

-- Over the entries in `R`: the iterator stands at one that matches, and the result is true; or none
-- matches, the result is false, and the iterator stands where the search began, at `first`.
abbrev pub Searches : (ℕ → Type 0) → List Field → ℕ → ℕ → ℕ → Option (FieldIter × Bool) → Type 0
Searches R fields dest tag first r =
    ((j : ℕ) × (p_size : ℕ) × R j
      × Matches tag (field_at fields j)
      × (r ≡ some (standing fields dest j p_size, true)))
    ⊎ ((p_size : ℕ) × (r ≡ some (standing fields dest first p_size, false))
        × ((j : ℕ) → R j → ¬ (Matches tag (field_at fields j))))

test-Matches :
    (tag : ℕ) (f : Field)
    → (f.tag == tag && not (ltype f.type == Ltype.extension)) ≡ true
    → Matches tag f
test-Matches tag f h = ground arith

test-no_match :
    (tag : ℕ) (f : Field)
    → (f.tag == tag && not (ltype f.type == Ltype.extension)) ≡ false
    → ¬ (Matches tag f)
test-no_match tag f h (e, n) = ground arith

find_here :
    (fuel first tag : ℕ) (iter : FieldIter)
    → ((pos iter).tag == tag && not (ltype (pos iter).type == Ltype.extension)) ≡ true
    → find_rounds (suc fuel) first tag iter ≡ some (iter, true)
unfolding find_rounds
find_here fuel first tag iter h = rw h

find_on :
    (fuel first tag : ℕ) (iter next : FieldIter) (b : Bool)
    → ((pos iter).tag == tag && not (ltype (pos iter).type == Ltype.extension)) ≡ false
    → pb_field_iter_next iter ≡ (next, b)
    → find_rounds (suc fuel) first tag iter
      ≡ (if next.index == first then some (next, false) else find_rounds fuel first tag next)
unfolding find_rounds
find_on fuel first tag iter next b h e = rw (h, e)

module _ (f : Field) (fields : List Field) (dest tag first : ℕ) (t : IsTagged (f ∷ fields))
    (inside : first ≤ length fields) where
  abbrev all : List Field
  all = f ∷ fields

  -- The entry `k` does not match, and the search goes on over the other entries.
  search_on :
      (R R' : ℕ → Type 0) (k : ℕ) (r r' : Option (FieldIter × Bool))
      → ¬ (Matches tag (field_at all k))
      → r ≡ r'
      → ((j : ℕ) → R' j → R j)
      → ((j : ℕ) → R j → (j ≡ k) ⊎ R' j)
      → Searches R' all dest tag first r'
      → Searches R all dest tag first r
  search_on R R' k r r' miss e wider split (inl (j, p_size, in_r, m, e')) =
      inl (j, p_size, wider j in_r, m, e ∙ e')
  search_on R R' k r r' miss e wider split (inr (p_size, e', others)) =
      inr (p_size, e ∙ e', λ j in_r. rule_out j (split j in_r))
    where
      rule_out : (j : ℕ) → (j ≡ k) ⊎ R' j → ¬ (Matches tag (field_at all j))
      rule_out j (inl same) = subst (λ i. ¬ (Matches tag (field_at all i))) (sym same) miss
      rule_out j (inr in_r') = others j in_r'

  -- It does not match, and the search is back where it began.
  search_ends :
      (R : ℕ → Type 0) (k p_size : ℕ) (r : Option (FieldIter × Bool))
      → ¬ (Matches tag (field_at all k))
      → r ≡ some (standing all dest first p_size, false)
      → ((j : ℕ) → R j → j ≡ k)
      → Searches R all dest tag first r
  search_ends R k p_size r miss e only =
      inr (
        p_size,
        e,
        λ j in_r. subst (λ i. ¬ (Matches tag (field_at all i))) (sym (only j in_r)) miss,
      )

  abbrev hits : ℕ → Bool
  hits k = (field_at all k).tag == tag && not (ltype (field_at all k).type == Ltype.extension)

  -- After the wrap, the entries from `k` up to `first`.
  search_front :
      (fuel k p_size : ℕ)
      → k < first
      → first ≤ k + fuel
      → Searches
          (λ j. (k ≤ j) × (j < first))
          all
          dest
          tag
          first
          (find_rounds fuel first tag (standing all dest k p_size))
  search_front zero k p_size h e = absurd (omega arith)
  search_front (suc fuel) k p_size h e =
      let here = standing all dest k p_size in
      let size' : ℕ = (pb_field_iter_next here).0.p_size in
      let on = λ (miss : hits k ≡ false).
        find_on fuel first tag here (standing all dest (suc k) size') true miss
          (next-standing f fields dest k p_size t (omega arith)) in
      let later = search_front fuel (suc k) size' in
      elim (Bool-cases (hits k)) [
        | inl hit ↦ inl (
          k,
          p_size,
          (omega arith, omega arith),
          test-Matches tag (field_at all k) hit,
          find_here fuel first tag here hit,
        )
        | inr miss ↦ elim (Bool-cases (suc k == first)) [
          | inl back ↦
              search_ends _ k size' _ (test-no_match tag (field_at all k) miss)
                (on miss
                  ∙ rw back (
                      ap (λ i. some (standing all dest i size', false)) (==→eq (suc k) first back)))
                (λ j h. ground arith)
          | inr more ↦
              search_on _ (λ j. (suc k ≤ j) × (j < first)) k _ _
                (test-no_match tag (field_at all k) miss) (on miss ∙ rw more refl)
                (λ j h. omega arith) (λ j h. grind arith) (later (ground arith) (omega arith))
        ]
      ]

  abbrev size_after : ℕ → ℕ → ℕ
  size_after k p_size = (pb_field_iter_next (standing all dest k p_size)).0.p_size

  find_next :
      (fuel k p_size : ℕ)
      → k < length fields
      → first ≤ k
      → hits k ≡ false
      → find_rounds (suc fuel) first tag (standing all dest k p_size)
        ≡ find_rounds fuel first tag (standing all dest (suc k) (size_after k p_size))
  find_next fuel k p_size i h miss =
      find_on fuel first tag (standing all dest k p_size) _ true miss
        (next-standing f fields dest k p_size t i)
      ∙ rw past refl
    where
      past : (suc k == first) ≡ false
      past = ground arith

  abbrev size_first : ℕ
  size_first = (pb_field_iter_begin all dest).0.p_size

  find_wrap :
      (fuel k p_size : ℕ)
      → k ≡ length fields
      → hits k ≡ false
      → find_rounds (suc fuel) first tag (standing all dest k p_size) ≡ (
          if 0 == first
          then some (standing all dest 0 size_first, false)
          else find_rounds fuel first tag (standing all dest 0 size_first))
  find_wrap fuel k p_size i miss =
      find_on fuel first tag (standing all dest k p_size) _ false miss
        (next_last f fields dest k p_size t i)

  -- At the last entry, the others are the ones before `first`.
  or_before :
      (j k : ℕ)
      → length fields ≤ k
      → ((k ≤ j) × (j < length all)) ⊎ (j < first)
      → (j ≡ k) ⊎ ((0 ≤ j) × (j < first))
  or_before j k l (inl (from, to)) = inl (omega arith)
  or_before j k l (inr h) = inr (omega arith, h)

  -- From `first` on to the last entry, and then from the first entry up to `first`.
  search_back :
      (fuel k p_size : ℕ)
      → first ≤ k
      → k ≤ length fields
      → length fields + 1 + first ≤ k + fuel
      → Searches
          (λ j. ((k ≤ j) × (j < length all)) ⊎ (j < first))
          all
          dest
          tag
          first
          (find_rounds fuel first tag (standing all dest k p_size))
  search_back zero k p_size h l e = absurd (omega arith)
  search_back (suc fuel) k p_size h l e =
      let miss_at = test-no_match tag (field_at all k) in
      let later = search_back fuel (suc k) (size_after k p_size) in
      elim (Bool-cases (hits k)) [
        | inl hit ↦ inl (
          k,
          p_size,
          inl (omega arith, omega arith),
          test-Matches tag (field_at all k) hit,
          find_here fuel first tag (standing all dest k p_size) hit,
        )
        | inr miss ↦ elim (Bool-cases (k == length fields)) [
          | inr inner ↦
              search_on _ (λ j. ((suc k ≤ j) × (j < length all)) ⊎ (j < first)) k _ _ (miss_at miss)
                (find_next fuel k p_size (ground arith) h miss) (λ j h. grind arith)
                (λ j h. grind arith) (later (omega arith) (ground arith) (omega arith))
          | inl last ↦ elim (Bool-cases (0 == first)) [
            | inl origin ↦
                search_ends _ k size_first _ (miss_at miss)
                  (find_wrap fuel k p_size (==→eq k (length fields) last) miss
                    ∙ rw origin (
                        ap (λ i. some (standing all dest i size_first, false))
                          (==→eq 0 first origin)))
                  (λ j h. grind arith)
            | inr beyond ↦
                search_on _ (λ j. (0 ≤ j) × (j < first)) k _ _ (miss_at miss)
                  (find_wrap fuel k p_size (==→eq k (length fields) last) miss ∙ rw beyond refl)
                  (λ j h. grind arith) (λ j. or_before j k (ground arith))
                  (search_front fuel 0 size_first (ground arith) (ground arith))
          ]
        ]
      ]

-- Two predicates on the entries that hold of the same ones.
Searches-same :
    (R R' : ℕ → Type 0) (fields : List Field) (dest tag first : ℕ) (r : Option (FieldIter × Bool))
    → ((j : ℕ) → R j → R' j)
    → ((j : ℕ) → R' j → R j)
    → Searches R fields dest tag first r
    → Searches R' fields dest tag first r
Searches-same R R' fields dest tag first r to from (inl (j, p_size, in_r, m, e)) =
    inl (j, p_size, to j in_r, m, e)
Searches-same R R' fields dest tag first r to from (inr (p_size, e, others)) =
    inr (p_size, e, λ j in_r. others j (from j in_r))

-- For a message type with a field at least and no field with the tag 0, and an iterator at any of its entries: the search for a
-- tag ends, and it either stops at an entry that has the tag and is no extension placeholder, with
-- `pData` and the count of required fields of that entry, and returns true; or no entry of the type
-- is such, the iterator is back at the entry where it stood, and the result is false.
pub pb_field_iter_find-Searches :
    (f : Field) (fields : List Field) (dest tag i p_size : ℕ)
    → IsTagged (f ∷ fields)
    → i ≤ length fields
    → Searches
        (λ j. j < length (f ∷ fields))
        (f ∷ fields)
        dest
        tag
        i
        (pb_field_iter_find tag (standing (f ∷ fields) dest i p_size))
unfolding pb_field_iter_find
pb_field_iter_find-Searches f fields dest tag i p_size t h =
    Searches-same (λ j. ((i ≤ j) × (j < length (f ∷ fields))) ⊎ (j < i)) _ (f ∷ fields) dest tag i _
      (λ j k. grind arith) (λ j k. grind arith)
      (search_back f fields dest tag i t h (length (f ∷ fields) + 1) i p_size (omega arith) h
        (omega arith))
