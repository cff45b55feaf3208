-- ===== src/Pb/Field/Iter/Place.antt =====
-- Where the iterator stands after a number of steps, against the layout of the struct.
use solta.Base.{ℕ, zero, suc, ◌+◌, ◌≤◌, ◌<◌, ◌*◌, ◌≡◌, ◌≢◌, refl, Bool, arith, ◌==◌}
use solta.Base.{if◌then◌else◌, Bool-cases, true, false, inl, inr, List, [], ◌∷◌}
use solta.Base.{length, All}
use solta.Pb.Field.Htype
use native.Mathlib.Numerals.{add-one}
use solta.Pb.Field.Atype
use solta.Pb.Field.{Field, field_at, htype, atype, pb_size_max}
use solta.Pb.Field.Iter.{FieldIter, pos, offset, prev_size, same_union, advance}
use solta.Pb.Field.Iter.{pb_field_iter_begin, pb_field_iter_next}

-- No entry before PB_LAST_FIELD has the tag that ends the array.
abbrev pub IsTagged : List Field → Type 0
IsTagged = All (λ f. f.tag ≢ 0)

pub tag-ne-zero :
    (fields : List Field) (i : ℕ)
    → IsTagged fields
    → i < length fields
    → ((field_at fields i).tag == 0) ≡ false
tag-ne-zero [] i t h = absurd (omega arith)
tag-ne-zero (f ∷ fields) zero t h = ground (arith, t.0)
tag-ne-zero (f ∷ fields) (suc i) t h = tag-ne-zero fields i t.1 (omega arith)

pub tag_end : (fields : List Field) (i : ℕ) → length fields ≤ i → (field_at fields i).tag ≡ 0
tag_end [] i h = refl
tag_end (f ∷ fields) zero h = absurd (omega arith)
tag_end (f ∷ fields) (suc i) h = tag_end fields i (omega arith)

-- One step inside the array.
next_inside :
    (iter : FieldIter)
    → ((pos iter).tag == 0) ≡ false
    → ((field_at iter.start (iter.index + 1)).tag == 0) ≡ false
    → pb_field_iter_next iter ≡ (
        if same_union (pos iter) (field_at iter.start (iter.index + 1))
        then (record iter { index = iter.index + 1 }, true)
        else (advance (pos iter) (record iter { index = iter.index + 1 }), true))
unfolding pb_field_iter_next
next_inside iter h k = rw (h, k)

-- The step from the last entry goes back to the beginning and says so.
next_wraps :
    (iter : FieldIter)
    → ((pos iter).tag == 0) ≡ false
    → (field_at iter.start (iter.index + 1)).tag ≡ 0
    → pb_field_iter_next iter ≡ ((pb_field_iter_begin iter.start iter.dest_struct).0, false)
unfolding pb_field_iter_next
next_wraps iter h k = rw (h, k)

-- The bytes that a member takes in the struct: a pointer takes eight whatever it points to, an array
-- in the struct one item after another, and any other member what its item takes.
pub extent : Field → ℕ
extent f =
    if atype f.type == Atype.pointer
    then 8
    else if htype f.type == Htype.repeated
    then (if atype f.type == Atype.static then f.data_size * f.array_size else f.data_size)
    else f.data_size

-- The generator marks a further member of a union by the greatest offset, behind a first one.
abbrev is_oneof : Field → Bool
is_oneof f = htype f.type == Htype.oneof

pub further_member : Field → Field → Bool
further_member prev f =
    if f.data_offset == pb_size_max then (if is_oneof f then is_oneof prev else false) else false

extent-prev_size : (f : Field) → prev_size f ≡ extent f
unfolding extent
extent-prev_size f = ground arith

further_member-same_union : (prev f : Field) → same_union prev f ≡ further_member prev f
unfolding further_member
further_member-same_union prev f = ground arith

-- The struct offset of the entry `i`: members of a union share one, and any other entry follows
-- the end of its predecessor at its `data_offset`.
abbrev pub offset_from : Field → ℕ → List Field → ℕ → ℕ
offset_from prev off fields zero = off
offset_from prev off [] (suc i) = off
offset_from prev off (f ∷ fields) (suc i) =
    offset_from f (if further_member prev f then off else off + (extent prev + f.data_offset))
      fields i

abbrev pub field_offset : List Field → ℕ → ℕ
field_offset [] i = 0
field_offset (f ∷ fields) i = offset_from f f.data_offset fields i

abbrev pub count_required : List Field → ℕ → ℕ
count_required fields zero = 0
count_required [] (suc i) = 0
count_required (f ∷ fields) (suc i) =
    (if htype f.type == Htype.required then 1 else 0) + count_required fields i

offset_from-suc :
    (prev : Field) (off : ℕ) (fields : List Field) (i : ℕ)
    → i < length fields
    → offset_from prev off fields (suc i) ≡ (
        if further_member (field_at (prev ∷ fields) i) (field_at fields i)
        then offset_from prev off fields i
        else offset_from prev off fields i
          + (extent (field_at (prev ∷ fields) i) + (field_at fields i).data_offset))
offset_from-suc prev off [] i h = absurd (omega arith)
offset_from-suc prev off (f ∷ fields) zero h = refl
offset_from-suc prev off (f ∷ fields) (suc i) h =
    offset_from-suc f (if further_member prev f then off else off + (extent prev + f.data_offset))
      fields i (omega arith)

pub count_required-suc :
    (fields : List Field) (i : ℕ)
    → i < length fields
    → count_required fields (suc i)
      ≡ count_required fields i
        + (if htype (field_at fields i).type == Htype.required then 1 else 0)
count_required-suc [] i h = absurd (omega arith)
count_required-suc (f ∷ fields) zero h = omega arith
count_required-suc (f ∷ fields) (suc i) h = omega (arith, count_required-suc fields i (omega arith))

-- The iterator at the entry `i`, whatever its `pSize`.
abbrev pub standing : List Field → ℕ → ℕ → ℕ → FieldIter
standing fields dest i p_size = record {
  start = fields;
  index = i;
  required_field_index = count_required fields i;
  dest_struct = dest;
  p_data = offset dest (field_offset fields i);
  p_size = p_size;
}

module _ (f : Field) (fields : List Field) (dest i p_size : ℕ) (t : IsTagged (f ∷ fields)) where
  abbrev here : FieldIter
  here = standing (f ∷ fields) dest i p_size

  inside :
      i < length fields
      → pb_field_iter_next here ≡ (
          if same_union (field_at (f ∷ fields) i) (field_at fields i)
          then (record here { index = suc i }, true)
          else (advance (field_at (f ∷ fields) i) (record here { index = suc i }), true))
  inside h = rw add-one at (
      next_inside here (tag-ne-zero (f ∷ fields) i t (omega arith))
        (rw add-one (tag-ne-zero fields i t.1 h)))

  -- At an entry that is not the last, of a message type without a field with the tag 0, `pb_field_iter_next` returns true and goes to
  -- the next entry: `pData` is that entry's offset in the struct, and `required_field_index` the
  -- number of required fields before it.
  pub next-standing :
      i < length fields
      → pb_field_iter_next here
        ≡ (standing (f ∷ fields) dest (suc i) (pb_field_iter_next here).0.p_size, true)
  next-standing h = elim (Bool-cases (same_union (field_at (f ∷ fields) i) (field_at fields i))) [
    | inl u ↦
        rw (inside h, u)
          (ground (
            arith,
            u,
            offset_from-suc f f.data_offset fields i h,
            extent-prev_size (field_at (f ∷ fields) i),
            further_member-same_union (field_at (f ∷ fields) i) (field_at fields i),
            count_required-suc (f ∷ fields) i (omega arith),
          ))
    | inr n ↦
        rw (inside h, n)
          (ground (
            arith,
            n,
            offset_from-suc f f.data_offset fields i h,
            extent-prev_size (field_at (f ∷ fields) i),
            further_member-same_union (field_at (f ∷ fields) i) (field_at fields i),
            count_required-suc (f ∷ fields) i (omega arith),
          ))
  ]

  -- One step from the last entry stands at the first.
  pub next_last :
      i ≡ length fields
      → pb_field_iter_next here
        ≡ (standing (f ∷ fields) dest 0 (pb_field_iter_begin (f ∷ fields) dest).0.p_size, false)
  unfolding pb_field_iter_begin
  next_last h =
      next_wraps here (tag-ne-zero (f ∷ fields) i t (omega arith))
        (tag_end (f ∷ fields) (i + 1) (omega arith))
