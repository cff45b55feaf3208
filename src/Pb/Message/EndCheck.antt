-- ===== src/Pb/Message/EndCheck.antt =====
-- The end of a message: the search for extensions where there are none, the count of the required
-- fields, and the check that they were seen.
use solta.Base.{
  ℕ, zero, suc, ◌+◌, ◌-◌, ◌/◌, ◌%◌, ◌≤◌, ◌<◌, ◌^◌, ◌≡◌, ◌≢◌, refl, sym, subst, ap, ◌∙◌, arith, ltb,
  ◌==◌, not, ◌&&◌, Bool, true, false, Bool-cases, inl, inr, if◌then◌else◌, length, List, ◌∷◌,
  Option, some,
}
use solta.Base.{pure, crash}
use solta.Pb.Errmsg.{missing_required_field}
use solta.Pb.Field.Ltype
use solta.Pb.Field.{Field, field_at, ltype}
use solta.Pb.Field.Iter.{
  FieldIter, pos, pb_field_iter_begin, pb_field_iter_next, find_rounds, pb_field_iter_find,
}
use solta.Pb.Field.Iter.Place.{
  IsTagged, standing, next-standing, next_last, count_required, count_required-suc,
}
use solta.Pb.Field.Iter.Find.{Matches, pb_field_iter_find-Searches}
use solta.Pb.Message.Decoding.{stop}
use solta.Pb.Message.Decode.{
  extension_rounds, find_extension_field, last_rounds, required_count, Seen, seen_word, allbits,
}
use solta.Pb.Message.Decode.{check_word, check_words, check_required, check_end}
use solta.Pb.Message.Keeps.{Keeps, Keeps-pure, Keeps-stop, Keeps-bind, Keeps-if, Keeps-test}

next-start : (iter : FieldIter) → (pb_field_iter_next iter).0.start ≡ iter.start
unfolding pb_field_iter_next pb_field_iter_begin
next-start iter = ground arith

abbrev pub NoExtensions : List Field → Type 0
NoExtensions fields = (i : ℕ) → (ltype (field_at fields i).type == Ltype.extension) ≡ false

-- A search that ends without a hit ends where another does that looks for something else.
ends_alike :
    (hit back : Bool) (iter next found : FieldIter) (more more' : Option (FieldIter × Bool))
    → (more ≡ some (found, false) → more' ≡ some (found, false))
    → (if hit then some (iter, true) else if back then some (next, false) else more)
      ≡ some (found, false)
    → (if back then some (next, false) else more') ≡ some (found, false)
ends_alike true back iter next found more more' h e = absurd (cc)
ends_alike false true iter next found more more' h e = e
ends_alike false false iter next found more more' h e = h e

-- Where no entry is for extensions, the search for one goes round as that for a tag that no entry has.
extension-find :
    (fuel first tag : ℕ) (iter found : FieldIter)
    → NoExtensions iter.start
    → find_rounds fuel first tag iter ≡ some (found, false)
    → extension_rounds fuel first iter ≡ some (found, false)
unfolding find_rounds extension_rounds
extension-find zero first tag iter found none_here e = absurd (cc)
extension-find (suc fuel) first tag iter found none_here e =
    let next = (pb_field_iter_next iter).0 in
    rw (none_here iter.index) (
      ends_alike ((pos iter).tag == tag && not (ltype (pos iter).type == Ltype.extension))
        (next.index == first) iter next found (find_rounds fuel first tag next)
        (extension_rounds fuel first next)
        (extension-find fuel first tag next found
          (subst NoExtensions (sym (next-start iter)) none_here))
        e)

module _ (f : Field) (fields : List Field) (dest : ℕ) (t : IsTagged (f ∷ fields)) where
  -- After a search for a tag that no entry has, that for an extension finds none either.
  pub find_extension_none :
      (tag i p_size : ℕ)
      → i ≤ length fields
      → NoExtensions (f ∷ fields)
      → ((j : ℕ) → j < length (f ∷ fields) → ¬ (Matches tag (field_at (f ∷ fields) j)))
      → (p_size' : ℕ) × (find_extension_field (standing (f ∷ fields) dest i p_size)
          ≡ some (standing (f ∷ fields) dest i p_size', false))
  unfolding find_extension_field pb_field_iter_find
  find_extension_none tag i p_size le none_here others =
      elim (pb_field_iter_find-Searches f fields dest tag i p_size t le) [
        | inl (j, p_size', inside, matches, e) ↦ absurd (others j inside matches)
        | inr (p_size', e, _) ↦ (
          p_size',
          extension-find (length (f ∷ fields) + 1) i tag (standing (f ∷ fields) dest i p_size) _
              none_here e,
        )
      ]

  abbrev total : ℕ
  total = count_required (f ∷ fields) (length (f ∷ fields))

  last_rounds-step :
      (rounds : ℕ) (iter next : FieldIter) (more : Bool)
      → pb_field_iter_next iter ≡ (next, more)
      → last_rounds (suc rounds) iter ≡ (
          if more
          then last_rounds rounds next
          else some (iter.required_field_index, (pos iter).type, next))
  unfolding last_rounds
  last_rounds-step rounds iter next more e = rw e refl

  count_last :
      (i p_size : ℕ)
      → i ≡ length fields
      → required_count (
        count_required (f ∷ fields) i,
        (field_at (f ∷ fields) i).type,
        standing (f ∷ fields) dest 0 p_size,
      )
        ≡ total
  count_last i p_size e =
      let step = count_required-suc (f ∷ fields) i (omega arith) in
      let whole : count_required (f ∷ fields) (suc i) ≡ total =
        ap (λ (k : ℕ). count_required (f ∷ fields) (suc k)) e in
      let tag = t.0 in grind (arith, step, whole, tag)

  -- The loop that seeks to the end of the array gives the number of required fields.
  last_rounds-total :
      (rounds i p_size : ℕ)
      → i ≤ length fields
      → length fields < i + rounds
      → (last : ℕ × ℕ × FieldIter) × (last_rounds rounds (standing (f ∷ fields) dest i p_size)
          ≡ some last)
        × (required_count last ≡ total)
  last_rounds-total zero i p_size le enough = absurd (omega arith)
  last_rounds-total (suc rounds) i p_size le enough =
      let here = standing (f ∷ fields) dest i p_size in
      elim (Bool-cases (ltb i (length fields))) [
        | inl inside ↦
            let p_size' = (pb_field_iter_next here).0.p_size in
            let (last, e, whole) =
              last_rounds-total rounds (suc i) p_size' (ground arith) (omega arith) in
            (
              last,
              last_rounds-step rounds here _ true
                    (next-standing f fields dest i p_size t (ground arith))
                  ∙ e,
              whole,
            )
        | inr at_end ↦ (
          _,
          last_rounds-step rounds here _ false (next_last f fields dest i p_size t (ground arith)),
          count_last i (pb_field_iter_begin (f ∷ fields) dest).0.p_size (ground arith),
        )
      ]

module _ {S : Type 0} where
  Keeps-check_word :
      (bits i : ℕ) (seen : Seen) → i < 2 → Keeps {S = S} 0 (check_word bits (seen_word seen i))
  Keeps-check_word bits zero seen h =
      Keeps-if 0 (seen.low == bits) (pure tt) (stop missing_required_field)
        (Keeps-pure (Unit {0}) tt) (Keeps-stop 0 missing_required_field)
  Keeps-check_word bits (suc zero) seen h =
      Keeps-if 0 (seen.high == bits) (pure tt) (stop missing_required_field)
        (Keeps-pure (Unit {0}) tt) (Keeps-stop 0 missing_required_field)
  Keeps-check_word bits (suc (suc i)) seen h = absurd (omega arith)

  Keeps-check_words : (seen : Seen) (i n : ℕ) → i + n ≤ 2 → Keeps {S = S} 0 (check_words seen i n)
  unfolding check_words
  Keeps-check_words seen i zero h = Keeps-pure (Unit {0}) tt
  Keeps-check_words seen i (suc n) h =
      Keeps-bind 0 0 (check_word allbits (seen_word seen i)) _
        (Keeps-check_word allbits i seen (omega arith))
        (λ _. Keeps-check_words seen (i + 1) n (omega arith))

  Keeps-check_required :
      (seen : Seen) (count : ℕ)
      → count < 64
      → count ≢ 32
      → Keeps {S = S} 0 (check_required seen count)
  unfolding check_required
  Keeps-check_required seen count few not_word =
      Keeps-test 0 (count == 0) _ _ (λ _. Keeps-pure (Unit {0}) tt)
        λ some_required.
          Keeps-bind 0 0 (check_words seen 0 (count / 32)) _
            (Keeps-check_words seen 0 (count / 32) (omega arith))
            λ _.
              Keeps-test 0 (count % 32 == 0) crash
                (check_word (allbits / 2 ^ (32 - count % 32)) (seen_word seen (count / 32)))
                (λ whole. absurd (ground (arith, not_word)))
                (λ _.
                  Keeps-check_word (allbits / 2 ^ (32 - count % 32)) (count / 32) seen
                    (omega arith))

module _ {S : Type 0} (f : Field) (fields : List Field) (dest : ℕ) (t : IsTagged (f ∷ fields)) where
  pub Keeps-check_end :
      (seen : Seen) (i p_size : ℕ)
      → i ≤ length fields
      → count_required (f ∷ fields) (length (f ∷ fields)) < 64
      → count_required (f ∷ fields) (length (f ∷ fields)) ≢ 32
      → Keeps {S = S} 0 (check_end (standing (f ∷ fields) dest i p_size, seen))
  Keeps-check_end seen i p_size le few not_word =
      let (last, e, whole) =
        last_rounds-total f fields dest t (length (f ∷ fields) + 1) i p_size le (omega arith) in
      rw (e, whole)
        (Keeps-check_required seen (count_required (f ∷ fields) (length (f ∷ fields))) few not_word)
