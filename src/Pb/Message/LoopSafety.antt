-- ===== src/Pb/Message/LoopSafety.antt =====
-- The loop over the tags of a message keeps the stream safe and ends.
use solta.Base.{
  ℕ, zero, suc, ◌+◌, ◌-◌, ◌≤◌, ◌<◌, ◌^◌, ◌≡◌, ◌≢◌, refl, arith, leb, ◌==◌, false, Bool-cases, inl,
  inr, length, List, ◌∷◌,
}
use solta.Base.{Res, done, failed, fault, M, pure, and_then, ◌>>◌}
use solta.Pb.Istream.Safety.{IsSafe, After, Takes-fewer}
use solta.Pb.Varint.{TagRead, tagged, eof, bad, broken, pb_decode_tag, pb_skip_field}
use solta.Pb.Varint.Safety.{LeavesTag, pb_decode_tag-Leaves, Takes-pb_skip_field}
use solta.Pb.Varint.Bounds.{IsSmall, pb_decode_tag-IsSmall}
use solta.Pb.Field.{Field, field_at}
use solta.Pb.Field.Iter.{FieldIter, pb_field_iter_find}
use solta.Pb.Field.Iter.Place.{IsTagged, standing, count_required}
use solta.Pb.Field.Iter.Find.{Matches, pb_field_iter_find-Searches}
use solta.Pb.Decode.Scalar.{Decoding, on_stream}
use solta.Pb.Message.Decoding.{Program, Decoder, decode_field}
use solta.Pb.Message.Decode.{
  Seen, Loop, skip_unknown, unknown_field, one_field, after_tag, field_rounds, check_end,
}
use solta.Pb.Message.Decode.{decode_fields}
use solta.Pb.Message.Keeps.{AfterIn, Left, Left-le, Keeps, Keeps-on_stream}
use solta.Pb.Message.EndCheck.{NoExtensions, find_extension_none, Keeps-check_end}

module _ {S : Type 0} where
  -- A success with `P`; the stream is safe after a success and after a failure.
  abbrev Rests : {A : Type 0} → (A → Type 0) → ℕ → ℕ → Res (Decoding S) A → Type 0
  Rests P slack left (done a t) = P a × AfterIn slack 0 left t
  Rests P slack left (failed t) = AfterIn slack 0 left t
  Rests P slack left fault = ⊥

  Rests-le :
      {A : Type 0} (P : A → Type 0) (slack left more : ℕ) (r : Res (Decoding S) A)
      → left ≤ more
      → Rests P slack left r
      → Rests P slack more r
  Rests-le P slack left more (done a t) le h = (h.0, (h.1.0, omega (arith, h.1.1)))
  Rests-le P slack left more (failed t) le h = (h.0, omega (arith, h.1))
  Rests-le P slack left more fault le h = h

  and_then-Rests :
      {A B : Type 0} (P : A → Type 0) (Q : B → Type 0) (slack left : ℕ) (r : Res (Decoding S) A)
      (f : A → M (Decoding S) B)
      → Rests P slack left r
      → ((a : A) (t : Decoding S)
          → P a
          → IsSafe slack t.stream
          → t.stream.bytes_left ≤ left
          → Rests Q slack t.stream.bytes_left (f a t))
      → Rests Q slack left (and_then r f)
  and_then-Rests P Q slack left (done a t) f h later =
      let le : t.stream.bytes_left ≤ left = omega (arith, h.1.1) in
      Rests-le Q slack t.stream.bytes_left left (f a t) le (later a t h.0 h.1.0 le)
  and_then-Rests P Q slack left (failed t) f h later = h
  and_then-Rests P Q slack left fault f h later = h

  Rests-pure :
      {A : Type 0} (P : A → Type 0) (m : M (Decoding S) (Unit {0})) (a : A) (slack : ℕ)
      (s : Decoding S)
      → Keeps 0 m
      → P a
      → IsSafe slack s.stream
      → Rests P slack s.stream.bytes_left ((m >> pure a) s)
  Rests-pure {A} P m a slack s keeps p safe = go (m s) (keeps slack s safe)
    where
      go :
          (r : Res (Decoding S) (Unit {0}))
          → Left slack 0 s.stream.bytes_left r
          → Rests P slack s.stream.bytes_left (and_then r (λ _. pure a))
      go (done x t) h = (p, h)
      go (failed t) h = h
      go fault h = h

  after_tag-Rests :
      (P : Loop → Type 0) (Q : FieldIter × Seen → Type 0) (slack : ℕ) (s : Decoding S)
      (one : ℕ → ℕ → M (Decoding S) Loop) (rest : Loop → M (Decoding S) (FieldIter × Seen))
      (kept : FieldIter × Seen) (r : TagRead S)
      → LeavesTag (After slack 1 s.stream.bytes_left) (After slack 0 s.stream.bytes_left) r
      → IsSmall r
      → ((tag wire_type : ℕ) (t : Decoding S)
          → tag < 2 ^ 29
          → IsSafe slack t.stream
          → Rests P slack t.stream.bytes_left (one tag wire_type t))
      → ((loop : Loop) (t : Decoding S)
          → P loop
          → IsSafe slack t.stream
          → t.stream.bytes_left < s.stream.bytes_left
          → Rests Q slack t.stream.bytes_left (rest loop t))
      → Q kept
      → Rests Q slack s.stream.bytes_left (after_tag one rest kept r s)
  after_tag-Rests P Q slack s one rest kept (tagged wire_type tag t) h small now later q =
      Rests-le Q slack t.bytes_left s.stream.bytes_left _ (omega (arith, h.1)) (
        and_then-Rests P Q slack t.bytes_left _ rest
          (now tag wire_type (record s { stream = t }) small h.0)
          (λ loop u p safe le. later loop u p safe (omega (arith, h.1))))
  after_tag-Rests P Q slack s one rest kept (eof t) h small now later q = (q, h)
  after_tag-Rests P Q slack s one rest kept (bad t) h small now later q = h
  after_tag-Rests P Q slack s one rest kept broken h small now later q = h

-- The iterator is at an entry.
abbrev pub Stands : List Field → ℕ → FieldIter → Type 0
Stands fields dest iter =
    (i : ℕ) × (p_size : ℕ) × (i < length fields) × (iter ≡ standing fields dest i p_size)

-- The loop over the tags, for a message type without extensions.
module _ {S : Type 0} (program : Program S) (func : Decoder S) (f : Field) (fields : List Field)
    (dest : ℕ) (tags : IsTagged (f ∷ fields)) (none_here : NoExtensions (f ∷ fields))
    (field_keeps : (wire_type i p_size : ℕ)
      → i ≤ length fields
      → Keeps {S = S} 0
          (decode_field program func wire_type (standing (f ∷ fields) dest i p_size))) where
  abbrev Here : FieldIter → Type 0
  Here = Stands (f ∷ fields) dest

  skip_unknown-Rests :
      (wire_type : ℕ) (loop : Loop) (slack : ℕ) (s : Decoding S)
      → Here loop.0
      → IsSafe slack s.stream
      → Rests
          (λ (loop' : Loop). Here loop'.0)
          slack
          s.stream.bytes_left
          (skip_unknown program func wire_type loop s)
  skip_unknown-Rests wire_type loop slack s stands safe =
      Rests-pure (λ (loop' : Loop). Here loop'.0) (on_stream (pb_skip_field wire_type)) loop slack s
        (Keeps-on_stream 0 _ (Takes-fewer 1 0 _ (omega arith) (Takes-pb_skip_field wire_type)))
        stands safe

  -- The search for an extension finds none, and a tag is below the mark that is set then.
  unknown_field-Rests :
      (tag wire_type range i p_size : ℕ) (seen : Seen) (slack : ℕ) (s : Decoding S)
      → i ≤ length fields
      → tag < 2 ^ 29
      → IsSafe slack s.stream
      → ((j : ℕ) → j < length (f ∷ fields) → ¬ (Matches tag (field_at (f ∷ fields) j)))
      → Rests
          (λ (loop : Loop). Here loop.0)
          slack
          s.stream.bytes_left
          (unknown_field program func tag wire_type
            (standing (f ∷ fields) dest i p_size, seen, range)
            s)
  unknown_field-Rests tag wire_type range i p_size seen slack s le small safe others =
      let (p_size', e) = find_extension_none f fields dest tags tag i p_size le none_here others in
      let beyond : leb (2 ^ 32 - 1) tag ≡ false = ground arith in
      elim (Bool-cases (leb range tag)) [
        | inl in_range ↦
            rw (in_range, e, beyond)
              (skip_unknown-Rests wire_type (standing (f ∷ fields) dest i p_size', seen, 2 ^ 32 - 1)
                slack s (i, p_size', omega arith, refl) safe)
        | inr below ↦ rw below (
            skip_unknown-Rests wire_type (standing (f ∷ fields) dest i p_size, seen, range) slack s
              (i, p_size, omega arith, refl) safe)
      ]

  one_field-Rests :
      (tag wire_type range i p_size : ℕ) (seen : Seen) (slack : ℕ) (s : Decoding S)
      → i ≤ length fields
      → tag < 2 ^ 29
      → IsSafe slack s.stream
      → Rests
          (λ (loop : Loop). Here loop.0)
          slack
          s.stream.bytes_left
          (one_field program func tag wire_type seen range
            (pb_field_iter_find tag (standing (f ∷ fields) dest i p_size))
            s)
  one_field-Rests tag wire_type range i p_size seen slack s le small safe =
      elim (pb_field_iter_find-Searches f fields dest tag i p_size tags le) [
        | inl (j, p_size', inside, matches, e) ↦ rw e (
            Rests-pure (λ (loop : Loop). Here loop.0) _ _ slack s
              (field_keeps wire_type j p_size' (omega arith)) (j, p_size', omega arith, refl) safe)
        | inr (p_size', e, others) ↦
            rw e
              (unknown_field-Rests tag wire_type range i p_size' seen slack s le small safe others)
      ]

  field_rounds-Rests :
      (fuel i p_size range : ℕ) (seen : Seen) (slack : ℕ) (s : Decoding S)
      → i ≤ length fields
      → IsSafe slack s.stream
      → s.stream.bytes_left < fuel
      → Rests
          (λ (kept : FieldIter × Seen). Here kept.0)
          slack
          s.stream.bytes_left
          (field_rounds program func fuel (standing (f ∷ fields) dest i p_size, seen, range) s)
  unfolding field_rounds
  field_rounds-Rests zero i p_size range seen slack s le safe enough = absurd (omega arith)
  field_rounds-Rests (suc fuel) i p_size range seen slack s le safe enough =
      elim (Bool-cases (s.stream.bytes_left == 0)) [
        | inl none_left ↦ rw none_left ((i, p_size, omega arith, refl), (safe, omega arith))
        | inr some_left ↦ rw some_left (
            after_tag-Rests (λ (loop : Loop). Here loop.0)
              (λ (kept : FieldIter × Seen). Here kept.0) slack s
              (λ tag wire_type.
                one_field program func tag wire_type seen range
                  (pb_field_iter_find tag (standing (f ∷ fields) dest i p_size)))
              (field_rounds program func fuel) (standing (f ∷ fields) dest i p_size, seen)
              (pb_decode_tag s.stream) (pb_decode_tag-Leaves slack s.stream safe)
              (pb_decode_tag-IsSmall slack s.stream safe)
              (λ tag wire_type t small safe_t.
                one_field-Rests tag wire_type range i p_size seen slack t le small safe_t)
              (λ loop t stands safe_t fewer. rw stands.3 (
                field_rounds-Rests fuel stands.0 stands.1 loop.2 loop.1 slack t
                  (omega (arith, stands.2)) safe_t (omega arith)))
              (i, p_size, omega arith, refl))
      ]

  pub Keeps-decode_fields :
      (p_size : ℕ)
      → count_required (f ∷ fields) (length (f ∷ fields)) < 64
      → count_required (f ∷ fields) (length (f ∷ fields)) ≢ 32
      → Keeps {S = S} 0 (decode_fields program func (standing (f ∷ fields) dest 0 p_size))
  Keeps-decode_fields p_size few not_word slack s safe = go _ (
      field_rounds-Rests (s.stream.bytes_left + 1) 0 p_size 0 (record { low = 0; high = 0 }) slack s
        (omega arith) safe (omega arith))
    where
      go :
          (r : Res (Decoding S) (FieldIter × Seen))
          → Rests
              (λ (kept : FieldIter × Seen). Stands (f ∷ fields) dest kept.0)
              slack
              s.stream.bytes_left
              r
          → Left slack 0 s.stream.bytes_left (and_then r check_end)
      go (done kept t) (stands, safe_t) = rw stands.3 (
          Left-le slack 0 0 t.stream.bytes_left s.stream.bytes_left _ (omega (arith, safe_t.1)) (
            Keeps-check_end f fields dest tags kept.1 stands.0 stands.1 (omega (arith, stands.2))
              few not_word slack t safe_t.0))
      go (failed t) h = h
      go fault h = h
