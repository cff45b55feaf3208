-- ===== src/Pb/Message/Size.antt =====
-- The size that `pb_get_encoded_size` gives, and the number of bytes that `pb_encode` writes.
use solta.Base.{ℕ, zero, suc, ◌-◌, ◌^◌, ◌≤◌, ◌<◌, ◌≡◌, sym, ap, ◌∙◌, arith, not}
use solta.Base.{length, List, [], inl, inr, Option, none, some, Bool, true, false}
use solta.Base.{M, Res, done, failed, fault, pure, if◌then◌else◌, ◌==◌}
use mathlib.Core.Option
use solta.Pb.Ostream.{sizing_stream, pb_ostream_from_buffer}
use solta.Pb.Ostream.Laws.{filling}
use solta.Pb.Memory.{Memory, load}
use solta.Pb.Field.Ltype
use solta.Pb.Field.Htype
use solta.Pb.Field.Atype
use solta.Pb.Field.{Field, field_at, ltype, htype, atype}
use solta.Pb.Field.Iter.{FieldIter, pos, offset, pb_field_iter_begin, pb_field_iter_next}
use solta.Pb.Message.Walk.{
  each_field, all_fields, extension_type, extension_dest, extension_next, type_encode, type_arg,
}
use solta.Pb.Message.Default.{pb_check_proto3_default_value}
use solta.Pb.Message.Encoding.{
  Encoding, Program, on_stream, reading, callback_outcome, pb_encode_tag_for_field,
}
use solta.Pb.Message.Encode.{
  pb_encoder, has_field, count_field, tag_and_data, encode_if, with_count, encode_rule,
}
use solta.Pb.Message.Encode.{
  encode_basic_at, encode_callback_at, encode_basic_field, encode_callback_field, encode_field,
}
use solta.Pb.Message.EncodeAll.{
  default_extension_at, encode_extension_at, default_extension_encoder, each_extension,
  encode_extension_field, encode_entry, pb_encode,
}
use solta.Pb.Message.EncodeAll.{pb_get_encoded_size, size_outcome}
use solta.Pb.Message.Agree.{Emits, Agrees, then-Agrees, pure-Emits, if-Agrees, crash-Agrees}
use solta.Pb.Message.Scalars.{pb_encode_tag_for_field-Agrees}
use solta.Pb.Message.Submessage.{with_mem, on_stream-Agrees, reading-Agrees}
use solta.Pb.Message.Array.{stop-Agrees, pb_encoder-Agrees, encode_array-Agrees}

-- Called with this memory, each of the user's functions leaves the memory alone and writes the same
-- bytes to every stream that has room for them, and succeeds on no other; or it never succeeds.
pub record IsSteady {S : Type 0} (program : Program S) (mem : Memory) : Type 0 where
  pub callbacks :
      (f : ℕ) (field : Field) (arg : ℕ) → Agrees (with_mem mem) (program.callback f field arg)
  pub extensions : (f p : ℕ) → Agrees (with_mem mem) (program.extension f p)

module _ {S : Type 0} (program : Program S) (mem : Memory) (steady : IsSteady program mem) where
  abbrev Writer : Type 0
  Writer = M (Encoding S) (Unit {0})

  nothing-Agrees : Agrees (with_mem {S = S} mem) (pure tt)
  nothing-Agrees = inl ([], pure-Emits (with_mem mem))

  encode_if-Agrees :
      (b : Option Bool) (m : M (Encoding S) (Unit {0}))
      → Agrees (with_mem mem) m
      → Agrees (with_mem mem) (encode_if b m)
  encode_if-Agrees none m h = crash-Agrees (with_mem mem)
  encode_if-Agrees (some true) m h = h
  encode_if-Agrees (some false) m h = nothing-Agrees

  with_count-Agrees :
      (n : Option ℕ) (f : ℕ → M (Encoding S) (Unit {0}))
      → ((k : ℕ) → Agrees (with_mem mem) (f k))
      → Agrees (with_mem mem) (with_count n f)
  with_count-Agrees none f h = crash-Agrees (with_mem mem)
  with_count-Agrees (some n) f h = h n

  module _ (sub : ℕ → ℕ → M (Encoding S) (Unit {0}))
      (h : (a q : ℕ) → Agrees (with_mem mem) (sub a q)) where
    tag_and_data-Agrees :
        (field : Field) (p : ℕ) → Agrees (with_mem mem) (tag_and_data (pb_encoder sub) field p)
    tag_and_data-Agrees field p =
        then-Agrees (with_mem mem) (on_stream (λ _. pb_encode_tag_for_field field))
          (pb_encoder sub field p)
          (on_stream-Agrees mem (λ _. pb_encode_tag_for_field field)
            (pb_encode_tag_for_field-Agrees field))
          (pb_encoder-Agrees mem sub field p h)

    encode_rule-Agrees :
        (field : Field) (place p : ℕ) (implicit : Option Bool)
        → Agrees (with_mem mem) (encode_rule (pb_encoder sub) field place p mem implicit)
    encode_rule-Agrees field place p implicit =
        let choose = if-Agrees (with_mem {S = S} mem) in
        choose (htype field.type == Htype.required) _ _
          (choose (p == 0) _ _ (stop-Agrees mem _) (tag_and_data-Agrees field p))
          (choose (htype field.type == Htype.optional) _ _
            (encode_if-Agrees (has_field field place mem implicit) _ (tag_and_data-Agrees field p))
            (choose (htype field.type == Htype.repeated) _ _
              (with_count-Agrees (count_field field place mem) _
                (λ n. encode_array-Agrees mem sub field p n h))
              (with_count-Agrees (count_field field place mem) _ (λ which.
                choose (which == field.tag) _ _ (tag_and_data-Agrees field p) nothing-Agrees))))

    encode_basic_field-Agrees :
        (field : Field) (p : ℕ)
        → Agrees (with_mem mem) (encode_basic_field program (pb_encoder sub) field p)
    unfolding encode_basic_field
    encode_basic_field-Agrees field p =
        let default = pb_check_proto3_default_value program.depth program.types mem field p in
        reading-Agrees mem (encode_basic_at program (pb_encoder sub) field p) (
          if-Agrees (with_mem mem) (atype field.type == Atype.pointer) _ _
            (encode_rule-Agrees field p (load 8 p mem) (some (not (load 8 p mem == 0))))
            (encode_rule-Agrees field p p
              (if htype field.type == Htype.optional then Option.map not default else some true)))

    outcome_done :
        (r : Res (Encoding S) (Unit {0})) (t : Encoding S)
        → callback_outcome r ≡ done tt t
        → r ≡ done tt t
    outcome_done (done a t') t e = e
    outcome_done (failed t') t e = cc
    outcome_done fault t e = cc

    outcome-Agrees :
        (m : M (Encoding S) (Unit {0}))
        → Agrees (with_mem mem) m
        → Agrees (with_mem mem) (λ s. callback_outcome (m s))
    outcome-Agrees m (inl (b, e)) = inl (
      b,
      record {
        counts = λ written u. ap callback_outcome (e.counts written u);
        writes = λ stored room limit written f l u.
            ap callback_outcome (e.writes stored room limit written f l u);
        fits = λ stored room limit written t r ok.
            e.fits stored room limit written t r (outcome_done (m _) t ok);
      },
    )
    outcome-Agrees m (inr e) = inr record {
      unsized = λ written t u ok. e.unsized written t u (outcome_done (m _) t ok);
      unwritten = λ stored room limit written t r ok.
          e.unwritten stored room limit written t r (outcome_done (m _) t ok);
    }

    encode_callback_field-Agrees :
        (field : Field) (p : ℕ) → Agrees (with_mem mem) (encode_callback_field program field p)
    unfolding encode_callback_field
    encode_callback_field-Agrees field p = reading-Agrees mem (encode_callback_at program field p) (
        if-Agrees (with_mem mem) (load 8 p mem == 0) _ _ nothing-Agrees
          (outcome-Agrees _ (steady.callbacks (load 8 p mem) field (offset p 8))))

    encode_field-Agrees :
        (field : Field) (p : ℕ) → Agrees (with_mem mem) (encode_field program sub field p)
    unfolding encode_field
    encode_field-Agrees field p =
        let choose = if-Agrees (with_mem {S = S} mem) in
        choose (atype field.type == Atype.static) _ _ (encode_basic_field-Agrees field p) (
          choose (atype field.type == Atype.pointer) _ _ (encode_basic_field-Agrees field p) (
            choose (atype field.type == Atype.callback) _ _ (encode_callback_field-Agrees field p)
              (stop-Agrees mem _)))

    default_extension-Agrees :
        (p : ℕ) → Agrees (with_mem mem) (default_extension_encoder program sub p)
    unfolding default_extension_encoder
    default_extension-Agrees p =
        let field = field_at (program.types (type_arg (extension_type p mem) mem)) 0 in
        reading-Agrees mem (default_extension_at program sub p) (
          if-Agrees (with_mem mem) (atype field.type == Atype.pointer) _ _
            (encode_field-Agrees field (extension_dest p))
            (encode_field-Agrees field (load 8 (extension_dest p) mem)))

    each_extension-Agrees :
        (chain p : ℕ) → Agrees (with_mem mem) (each_extension program sub chain p)
    unfolding each_extension
    each_extension-Agrees zero p =
        if-Agrees (with_mem mem) (p == 0) _ _ nothing-Agrees (crash-Agrees (with_mem mem))
    each_extension-Agrees (suc chain) p = if-Agrees (with_mem mem) (p == 0) _ _ nothing-Agrees (
        then-Agrees (with_mem mem) (reading (encode_extension_at program sub p)) _
          (reading-Agrees mem (encode_extension_at program sub p) (
            if-Agrees (with_mem mem) (type_encode (extension_type p mem) mem == 0) _ _
              (default_extension-Agrees p)
              (steady.extensions (type_encode (extension_type p mem) mem) p)))
          (reading-Agrees mem (λ m. each_extension program sub chain (extension_next p m))
            (each_extension-Agrees chain (extension_next p mem))))

    encode_entry-Agrees : (iter : FieldIter) → Agrees (with_mem mem) (encode_entry program sub iter)
    unfolding encode_extension_field
    encode_entry-Agrees iter =
        if-Agrees (with_mem mem) (ltype (pos iter).type == Ltype.extension) _ _
          (reading-Agrees mem (λ m. each_extension program sub program.chain (load 8 iter.p_data m))
            (each_extension-Agrees program.chain (load 8 iter.p_data mem)))
          (encode_field-Agrees (pos iter) iter.p_data)

    each_field-Agrees :
        (rounds : ℕ) (iter : FieldIter)
        → Agrees (with_mem mem) (each_field rounds (encode_entry program sub) iter)
    unfolding each_field
    each_field-Agrees zero iter = crash-Agrees (with_mem mem)
    each_field-Agrees (suc rounds) iter =
        then-Agrees (with_mem mem) (encode_entry program sub iter) _ (encode_entry-Agrees iter) (
          if-Agrees (with_mem mem) (pb_field_iter_next iter).1 _ _
            (each_field-Agrees rounds (pb_field_iter_next iter).0) nothing-Agrees)

    all_fields-Agrees :
        (fields : List Field) (src : ℕ)
        → Agrees (with_mem mem) (all_fields fields src (encode_entry program sub))
    all_fields-Agrees fields src =
        if-Agrees (with_mem mem) (pb_field_iter_begin fields src).1 _ _
          (each_field-Agrees (length fields) (pb_field_iter_begin fields src).0) nothing-Agrees

  pub pb_encode-Agrees : (depth a src : ℕ) → Agrees (with_mem mem) (pb_encode program depth a src)
  unfolding pb_encode
  pb_encode-Agrees zero a src = crash-Agrees (with_mem mem)
  pb_encode-Agrees (suc depth) a src =
      all_fields-Agrees (pb_encode program depth) (λ b q. pb_encode-Agrees depth b q)
        (program.types a) src

  done_same : {s t : Encoding S} → done tt s ≡ done tt t → s ≡ t
  done_same e = cc

  -- Where the user's functions are steady, and `pb_encode` of a message into an array of fewer than
  -- 2 ^ 64 bytes succeeds: it has written some bytes to the start of the array, with `bytes_written`
  -- their number, and left the memory alone; `pb_get_encoded_size` of the message succeeds with that
  -- number and leaves the memory alone; and `pb_encode` of the message into any array that has room
  -- for that number, with a `max_size` that allows it, succeeds and writes the same bytes.
  pub pb_encode-pb_get_encoded_size :
      (depth a src room limit room' limit' : ℕ) (t : Encoding S)
      → room < 2 ^ 64
      → limit < 2 ^ 64
      → pb_encode program depth a src (with_mem mem (pb_ostream_from_buffer room limit)) ≡ done tt t
      → t.stream.bytes_written ≤ room'
      → t.stream.bytes_written ≤ limit'
      → limit' < 2 ^ 64
      → (bytes : List ℕ) × (t
          ≡ with_mem mem (filling bytes (room - length bytes) limit (length bytes) none))
        × (pb_get_encoded_size program depth a src mem ≡ done (length bytes) mem)
        × (pb_encode program depth a src (with_mem mem (pb_ostream_from_buffer room' limit'))
            ≡ done tt
                (with_mem mem (filling bytes (room' - length bytes) limit' (length bytes) none)))
  unfolding pb_get_encoded_size pb_ostream_from_buffer sizing_stream
  pb_encode-pb_get_encoded_size depth a src room limit room' limit' t small under ok fits fits' u =
      elim (pb_encode-Agrees depth a src) [
        | inr h ↦ absurd (h.unwritten [] room limit 0 t (omega arith, omega arith, under) ok)
        | inl (bytes, h) ↦
            let k = h.fits [] room limit 0 t (omega arith, omega arith, under) ok in
            let now = written bytes h room limit k.0 (omega (arith, k.1)) under in
            let same : t
                ≡ with_mem mem (filling bytes (room - length bytes) limit (length bytes) none) =
              done_same (sym ok ∙ now) in
            let n : t.stream.bytes_written ≡ length bytes = ap (λ x. x.stream.bytes_written) same in
            (
              bytes,
              same,
              ap (size_outcome mem) (h.counts 0 (omega arith))
                  ∙ ap (λ n. done n mem) (omega (arith, k.1)),
              written bytes h room' limit' (omega (arith, n)) (omega (arith, n)) u,
            )
      ]
    where
      written :
          (bytes : List ℕ)
          → Emits (with_mem mem) (pb_encode program depth a src) bytes
          → (room' limit' : ℕ) → length bytes ≤ room'
          → length bytes ≤ limit'
          → limit' < 2 ^ 64
          → pb_encode program depth a src (with_mem mem (filling [] room' limit' 0 none))
            ≡ done tt
                (with_mem mem (filling bytes (room' - length bytes) limit' (length bytes) none))
      written bytes h room' limit' f l u =
          h.writes [] room' limit' 0 f (omega arith) u
          ∙ ap (λ k. done tt (with_mem mem (filling bytes (room' - length bytes) limit' k none)))
              (omega arith)
