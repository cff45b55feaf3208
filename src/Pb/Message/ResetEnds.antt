-- ===== src/Pb/Message/ResetEnds.antt =====
-- Setting a message to its defaults ends, without a fault, for message types that are sound.
use solta.Base.{
  ℕ, zero, suc, ◌+◌, ◌≤◌, ◌<◌, ◌≡◌, refl, arith, ltb, ◌==◌, ==→eq, Bool, true, false, Bool-cases,
  inl, inr, ◌⊎◌, if◌then◌else◌, ◌&&◌, ◌||◌, not, length, List, ◌∷◌, take,
}
use solta.Base.{Res, done, failed, fault, M, pure, crash, and_then, ◌>>◌, Leaves}
use solta.Pb.Memory.{Memory, store}
use solta.Pb.Field.Ltype
use solta.Pb.Field.Htype
use solta.Pb.Field.Atype
use solta.Pb.Field.{Field, Ptr, null, message, initial, ltype, htype, atype}
use solta.Pb.Field.Iter.{FieldIter, pos, pb_field_iter_begin, pb_field_iter_next}
use solta.Pb.Field.Iter.Place.{IsTagged, standing, next-standing, next_last, tag-ne-zero}
use solta.Pb.Decode.Bytes.{clear, store_bytes}
use solta.Pb.Message.Walk.{Types, each_field, all_fields}
use solta.Pb.Message.Reset.{
  change, initialize, init_data, set_plain, pb_field_set_to_default, pb_message_set_to_defaults,
}
use solta.Pb.Message.Sound.{HasDefault, IsValue, IsPart, IsSound, IsMessage}

-- The call ends on every memory, and does not fault.
abbrev pub Ends : M Memory (Unit {0}) → Type 0
Ends m = (mem : Memory) → Leaves (λ _. Unit {0}) (λ _. Unit {0}) (m mem)

Ends-then : (m k : M Memory (Unit {0})) → Ends m → Ends k → Ends (m >> k)
Ends-then m k h h' mem = go (m mem) (h mem)
  where
    go :
        (r : Res Memory (Unit {0}))
        → Leaves (λ _. Unit {0}) (λ _. Unit {0}) r
        → Leaves (λ _. Unit {0}) (λ _. Unit {0}) (and_then r (λ _. k))
    go (done a mem') e = h' mem'
    go (failed mem') e = tt
    go fault e = e

Ends-test :
    (b : Bool) (m k : M Memory (Unit {0}))
    → (b ≡ true → Ends m)
    → (b ≡ false → Ends k)
    → Ends (if b then m else k)
Ends-test true m k h h' = h refl
Ends-test false m k h h' = h' refl

Ends-change : (f : Memory → Memory) → Ends (change f)
Ends-change f mem = tt

Ends-initialize :
    (size : ℕ) (ptr : Ptr) (dest : ℕ) → HasDefault ptr size → Ends (initialize size ptr dest)
Ends-initialize size null dest h = Ends-change (clear size dest)
Ends-initialize size (initial bytes) dest h =
    Ends-test (ltb (length bytes) size) crash (change (store_bytes (take size bytes) dest))
      (λ short. absurd (ground arith)) (λ _. Ends-change (store_bytes (take size bytes) dest))
Ends-initialize size (message a) dest h = absurd h

-- One round of the loop over the entries.
each_field-step :
    (rounds : ℕ) (body : FieldIter → M Memory (Unit {0})) (iter next : FieldIter) (more : Bool)
    → pb_field_iter_next iter ≡ (next, more)
    → Ends (body iter)
    → (more ≡ true → Ends (each_field rounds body next))
    → Ends (each_field (suc rounds) body iter)
unfolding each_field
each_field-step rounds body iter next more e now later = rw e (
    Ends-then (body iter) (if more then each_field rounds body next else pure tt) now
      (Ends-test more (each_field rounds body next) (pure tt) later (λ _ mem. tt)))

-- The loop over the entries ends after the last one.
module _ (f : Field) (fields : List Field) (dest : ℕ) (t : IsTagged (f ∷ fields))
    (body : FieldIter → M Memory (Unit {0}))
    (ends : (i p_size : ℕ)
      → i ≤ length fields
      → Ends (body (standing (f ∷ fields) dest i p_size))) where
  each_field-Ends :
      (rounds i p_size : ℕ)
      → i ≤ length fields
      → length fields < i + rounds
      → Ends (each_field rounds body (standing (f ∷ fields) dest i p_size))
  each_field-Ends zero i p_size le enough = absurd (omega arith)
  each_field-Ends (suc rounds) i p_size le enough =
      let rest = each_field-Ends rounds (suc i) in
      elim (Bool-cases (ltb i (length fields))) [
        | inl inside ↦
            each_field-step rounds body _ _ true
              (next-standing f fields dest i p_size t (ground arith)) (ends i p_size le)
              (λ _. rest _ (ground arith) (omega arith))
        | inr last ↦
            each_field-step rounds body _ _ false
              (next_last f fields dest i p_size t (ground arith)) (ends i p_size le)
              (λ wrong. absurd (cc))
      ]

  all_fields-Ends : Ends (all_fields (f ∷ fields) dest body)
  unfolding pb_field_iter_begin
  all_fields-Ends =
      rw (tag-ne-zero (f ∷ fields) 0 t (omega arith))
        (each_field-Ends (length (f ∷ fields)) 0 _ (omega arith) (omega arith))

module _ (chain : ℕ) (types : Types) (rank : ℕ → ℕ) (sound : (a : ℕ) → IsMessage rank types a) where
  set_plain-Ends :
      (r : ℕ) (sub : List Field → ℕ → M Memory (Unit {0})) (iter : FieldIter)
      → IsSound rank r (pos iter)
      → ((b dest : ℕ) → rank b < r → Ends (sub (types b) dest))
      → Ends (set_plain types sub iter)
  set_plain-Ends r sub iter is_sound ends =
      let rule = htype (pos iter).type in
      let counted = rule == Htype.repeated || rule == Htype.oneof in
      let init = init_data types sub iter in
      let uncount = change (store 4 iter.p_size 0) in
      Ends-test (atype (pos iter).type == Atype.static) _ _
        (λ static.
          let init_ends = starts (is_sound.1 (==→eq (atype (pos iter).type) Atype.static static)) in
          Ends-test (rule == Htype.optional && not (iter.p_size == iter.p_data))
            (change (store 1 iter.p_size 0) >> init) (if counted then uncount else init)
            (λ _.
              Ends-then (change (store 1 iter.p_size 0)) init (Ends-change (store 1 iter.p_size 0))
                init_ends)
            (λ _.
              Ends-test counted uncount init (λ _. Ends-change (store 4 iter.p_size 0))
                (λ _. init_ends)))
        (λ _.
          Ends-test (atype (pos iter).type == Atype.pointer) _ _
            (λ _.
              Ends-then (change (store 8 iter.p_data 0)) (if counted then uncount else pure tt)
                (Ends-change (store 8 iter.p_data 0))
                (Ends-test counted uncount (pure tt) (λ _. Ends-change (store 4 iter.p_size 0))
                  (λ _ mem. tt)))
            (λ _ mem. tt))
    where
      starts : IsValue (pos iter) ⊎ IsPart rank r (pos iter) → Ends (init_data types sub iter)
      starts (inl (known, default)) =
          Ends-test (ltype (pos iter).type == Ltype.submessage) _ _
            (λ nested. absurd (ground arith))
            (λ _. Ends-initialize (pos iter).data_size (pos iter).ptr iter.p_data default)
      starts (inr part) =
          rw (part.is_submessage, part.points) (ends part.inner iter.p_data part.below)

  set_to_default-Ends :
      (depth r : ℕ) (iter : FieldIter)
      → IsSound rank r (pos iter)
      → ((b dest : ℕ)
          → rank b < r
          → Ends (pb_message_set_to_defaults depth chain types (types b) dest))
      → Ends (pb_field_set_to_default (suc depth) chain types iter)
  unfolding pb_message_set_to_defaults pb_field_set_to_default
  set_to_default-Ends depth r iter is_sound ends mem =
      let plain : (ltype (pos iter).type == Ltype.extension) ≡ false = ground (arith, is_sound.0) in
      rw plain
        (set_plain-Ends r (pb_message_set_to_defaults depth chain types) iter is_sound ends mem)

  pub pb_message_set_to_defaults-Ends :
      (depth a dest : ℕ)
      → rank a < depth
      → Ends (pb_message_set_to_defaults depth chain types (types a) dest)
  unfolding pb_message_set_to_defaults
  pb_message_set_to_defaults-Ends zero a dest below = absurd (omega arith)
  pb_message_set_to_defaults-Ends (suc depth) a dest below =
      let message = sound a in
      rw message.fields (
        all_fields-Ends message.first message.others dest message.tags _ λ i p_size le.
          set_to_default-Ends depth (rank a) _ (message.entries i le)
            λ b q less. pb_message_set_to_defaults-Ends depth b q (omega arith))
