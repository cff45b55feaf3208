-- ===== src/Pb/Message/RuleSafety.antt =====
-- Decoding a field of any rule keeps the stream safe.
use solta.Base.{ℕ, ◌≤◌, ◌<◌, ◌^◌, arith, leb, ◌==◌, ==→eq, inl, inr, ◌⊎◌, ◌&&◌, if◌then◌else◌}
use solta.Base.{M, pure, ◌>>◌}
use solta.Pb.Errmsg.{no_malloc_support, invalid_field_type}
use solta.Pb.Memory.{load}
use solta.Pb.Field.Ltype
use solta.Pb.Field.Htype
use solta.Pb.Field.Atype
use solta.Pb.Field.{Field, ltype, htype, atype}
use solta.Pb.Field.Iter.{FieldIter, pos, offset}
use solta.Pb.Decode.Scalar.{Decoding, put}
use solta.Pb.Decode.Bytes.{change, clear}
use solta.Pb.Message.Reset.{pb_message_set_to_defaults}
use solta.Pb.Message.Decoding.{Program, Decoder, on_memory, pb_decoder, reset_message}
use solta.Pb.Message.Decoding.{decode_static_field, decode_callback_field, decode_field}
use solta.Pb.Message.Keeps.{Keeps, Keeps-pure, Keeps-stop, Keeps-change, Keeps-put, Keeps-on_memory}
use solta.Pb.Message.Keeps.{Keeps-bind, Keeps-fewer, Keeps-if, Keeps-test}
use solta.Pb.Message.FieldSafety.{Keeps-value, Keeps-part, Keeps-packed_array, Keeps-repeated_item}
use solta.Pb.Message.CallbackSafety.{IsPrompt, Keeps-decode_by}
use solta.Pb.Message.ResetEnds.{pb_message_set_to_defaults-Ends}
use solta.Pb.Message.Sound.{IsValue, IsPart, IsSound, IsMessage}

-- The message types are sound, the bounds of the program are high enough for them, and the user's
-- functions keep their rules. The list of extensions has no bound, since there is none.
pub record IsProgram {S : Type 0} (rank : ℕ → ℕ) (program : Program S) : Type 0 where
  pub messages : (a : ℕ) → IsMessage rank program.types a
  pub deep_enough : (a : ℕ) → rank a < program.depth
  pub calls_enough : 2 ^ 64 ≤ program.calls
  pub prompt : (f : ℕ) (field : Field) (arg : ℕ) → IsPrompt (program.callback f field arg)

module _ {S : Type 0} (rank : ℕ → ℕ) (program : Program S) (sound : IsProgram rank program) where
  pub Keeps-set_to_defaults :
      (a dest : ℕ)
      → Keeps {S = S} 0 (
          on_memory (
            pb_message_set_to_defaults program.depth program.chain program.types
              (program.types a)
              dest))
  Keeps-set_to_defaults a dest =
      Keeps-on_memory
        (pb_message_set_to_defaults program.depth program.chain program.types (program.types a)
          dest)
        (pb_message_set_to_defaults-Ends program.chain program.types rank sound.messages
          program.depth a dest (sound.deep_enough a))

  module _ (sub sub_noinit : ℕ → ℕ → M (Decoding S) (Unit {0})) (r : ℕ)
      (keeps : (b d : ℕ) → rank b < r → Keeps 0 (sub b d))
      (keeps_noinit : (b d : ℕ) → rank b < r → Keeps 0 (sub_noinit b d)) where
    Keeps-static :
        (wire_type : ℕ) (iter : FieldIter)
        → IsValue (pos iter) ⊎ IsPart rank r (pos iter)
        → Keeps 0 (decode_static_field program (pb_decoder sub sub_noinit) wire_type iter)
    unfolding decode_static_field
    Keeps-static wire_type iter is_sound =
        Keeps-if 0 (rule == Htype.required) _ _ (once iter.p_data) (
          Keeps-if 0 (rule == Htype.optional) _ _
            (Keeps-bind 0 0 (if iter.p_size == iter.p_data then pure tt else put 1 iter.p_size 1) _
              (Keeps-if 0 (iter.p_size == iter.p_data) (pure tt) (put 1 iter.p_size 1)
                (Keeps-pure (Unit {0}) tt) (Keeps-put 1 iter.p_size 1))
              (λ _. once iter.p_data))
            (Keeps-if 0 (rule == Htype.repeated) _ _
              (Keeps-if 0 (wire_type == 2 && leb (ltype (pos iter).type) Ltype.last_packable) _ _
                (Keeps-packed_array func iter each) (Keeps-repeated_item func iter each))
              (Keeps-bind 0 0
                (put 4 iter.p_size (pos iter).tag
                  >> (if ltype (pos iter).type == Ltype.submessage
                      then reset_message program iter
                      else pure tt))
                _
                (Keeps-bind 0 0 (put 4 iter.p_size (pos iter).tag) _
                  (Keeps-put 4 iter.p_size (pos iter).tag) (λ _. reset is_sound))
                (λ _. once iter.p_data))))
      where
        func : Decoder S
        func = pb_decoder sub sub_noinit

        rule : ℕ
        rule = htype (pos iter).type

        each : (dest : ℕ) → Keeps 1 (func (pos iter) dest)
        each dest = elim is_sound [
          | inl value ↦ Keeps-value sub sub_noinit (pos iter) dest value
          | inr part ↦ Keeps-part sub sub_noinit rank r (pos iter) dest keeps keeps_noinit part
        ]

        once : (dest : ℕ) → Keeps 0 (func (pos iter) dest)
        once dest = Keeps-fewer 1 0 (func (pos iter) dest) (omega arith) (each dest)

        reset :
            IsValue (pos iter) ⊎ IsPart rank r (pos iter)
            → Keeps {S = S} 0 (
                if ltype (pos iter).type == Ltype.submessage
                then reset_message program iter
                else pure tt)
        reset (inl (known, default)) =
            Keeps-test 0 (ltype (pos iter).type == Ltype.submessage) (reset_message program iter)
              (pure tt) (λ nested. absurd (ground arith)) (λ _. Keeps-pure (Unit {0}) tt)
        reset (inr part) =
            rw (part.is_submessage, part.points)
              (Keeps-bind 0 0 (change (clear (pos iter).data_size iter.p_data)) _
                (Keeps-change (clear (pos iter).data_size iter.p_data))
                (λ _. Keeps-set_to_defaults part.inner iter.p_data))

    pub Keeps-decode_field :
        (wire_type : ℕ) (iter : FieldIter)
        → IsSound rank r (pos iter)
        → Keeps 0 (decode_field program (pb_decoder sub sub_noinit) wire_type iter)
    unfolding decode_field decode_callback_field
    Keeps-decode_field wire_type iter is_sound =
        Keeps-test 0 (atype (pos iter).type == Atype.static) _ _
          (λ static.
            Keeps-static wire_type iter
              (is_sound.1 (==→eq (atype (pos iter).type) Atype.static static)))
          (λ _.
            Keeps-if 0 (atype (pos iter).type == Atype.pointer) _ _ (Keeps-stop 0 no_malloc_support)
              (Keeps-if 0 (atype (pos iter).type == Atype.callback) _ _
                (λ slack s.
                  Keeps-decode_by (load 8 iter.p_data s.memory) _ program.calls wire_type
                    (sound.prompt (load 8 iter.p_data s.memory) (pos iter) (offset iter.p_data 8))
                    sound.calls_enough slack s)
                (Keeps-stop 0 invalid_field_type)))
