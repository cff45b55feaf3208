-- ===== src/Pb/Message/Safety.antt =====
-- Decoding a message keeps the stream safe, for programs whose message types are sound and whose
-- user functions keep their rules.
use solta.Base.{
  ℕ, zero, suc, ◌≤◌, ◌<◌, ◌≡◌, refl, arith, leb, Bool-cases, inl, inr, length, List, [], ◌∷◌,
}
use solta.Base.{M}
use solta.Pb.Istream.Safety.{IsSafe}
use solta.Pb.Field.{Field, field_at, last_field}
use solta.Pb.Field.Iter.{pb_field_iter_begin}
use solta.Pb.Field.Iter.Place.{standing}
use solta.Pb.Decode.Scalar.{Decoding}
use solta.Pb.Message.Decoding.{Program, pb_decoder, close_after}
use solta.Pb.Message.Decode.{
  decode_fields, set_to_defaults, initialized, pb_decode_noinit, pb_decode, pb_decode_delimited,
}
use solta.Pb.Message.Keeps.{Left, Keeps, Keeps-bind}
use solta.Pb.Message.Nested.{Keeps-in_substream, close_after-Closes}
use solta.Pb.Message.Sound.{IsSound}
use solta.Pb.Message.EndCheck.{NoExtensions}
use solta.Pb.Message.RuleSafety.{IsProgram, Keeps-set_to_defaults, Keeps-decode_field}
use solta.Pb.Message.LoopSafety.{Keeps-decode_fields}

beyond_end : (fields : List Field) (i : ℕ) → length fields ≤ i → field_at fields i ≡ last_field
beyond_end [] i h = refl
beyond_end (f ∷ fields) zero h = absurd (omega arith)
beyond_end (f ∷ fields) (suc i) h = beyond_end fields i (omega arith)

none_for_extensions :
    (rank : ℕ → ℕ) (r : ℕ) (f : Field) (fields : List Field)
    → ((i : ℕ) → i ≤ length fields → IsSound rank r (field_at (f ∷ fields) i))
    → NoExtensions (f ∷ fields)
none_for_extensions rank r f fields sound i = elim (Bool-cases (leb i (length fields))) [
  | inl inside ↦ ground (arith, (sound i (ground arith)).0)
  | inr outside ↦ rw (beyond_end (f ∷ fields) i (ground arith)) refl
]

module _ {S : Type 0} (rank : ℕ → ℕ) (program : Program S) (sound : IsProgram rank program) where
  Keeps-initialized :
      (noinit : ℕ → ℕ → M (Decoding S) (Unit {0})) (a dest : ℕ)
      → Keeps 0 (noinit a dest)
      → Keeps 0 (initialized program noinit a dest)
  Keeps-initialized noinit a dest keeps =
      Keeps-bind 0 0 (set_to_defaults program a dest) _
        (Keeps-set_to_defaults rank program sound a dest) (λ _. keeps)

  -- The fields of a message, where the decoders of the messages in it keep the stream safe.
  Keeps-fields :
      (noinit : ℕ → ℕ → M (Decoding S) (Unit {0})) (a dest : ℕ)
      → ((b d : ℕ) → rank b < rank a → Keeps 0 (noinit b d))
      → Keeps 0 (
          decode_fields program
            (pb_decoder (initialized program noinit) noinit)
            (pb_field_iter_begin (program.types a) dest).0)
  unfolding pb_field_iter_begin
  Keeps-fields noinit a dest keeps =
      let message = sound.messages a in
      let func = pb_decoder (initialized program noinit) noinit in
      let none = none_for_extensions rank (rank a) message.first message.others message.entries in
      rw message.fields (
        Keeps-decode_fields program func message.first message.others dest message.tags none
          (λ wire_type i p_size le.
            Keeps-decode_field rank program sound (initialized program noinit) noinit (rank a)
              (λ b d less. Keeps-initialized noinit b d (keeps b d less)) keeps wire_type
              (standing (message.first ∷ message.others) dest i p_size) (message.entries i le))
          (pb_field_iter_begin (message.first ∷ message.others) dest).0.p_size message.few_required
          message.not_a_word)

  Keeps-pb_decode_noinit :
      (depth a dest : ℕ) → rank a < depth → Keeps 0 (pb_decode_noinit program depth a dest)
  unfolding pb_decode_noinit
  Keeps-pb_decode_noinit zero a dest below = absurd (omega arith)
  Keeps-pb_decode_noinit (suc depth) a dest below =
      Keeps-fields (pb_decode_noinit program depth) a dest
        (λ b d less. Keeps-pb_decode_noinit depth b d (omega arith))

  -- For a program whose message types are sound, with a field at least, without extensions and with
  -- fewer than 64 required fields each but not 32, whose user functions keep their rules, and whose
  -- bounds are high enough, as `depth` is for the message type: `pb_decode` on any safe stream ends
  -- and reads nothing outside the stream's array, whatever the bytes are; the stream is safe after
  -- it, with a `bytes_left` that is not higher, whether it succeeds or fails. So do
  -- `pb_decode_noinit`, and `pb_decode_delimited`, which takes a byte at least if it succeeds.
  pub pb_decode-Left :
      (depth a dest slack : ℕ) (s : Decoding S)
      → rank a < depth
      → IsSafe slack s.stream
      → Left slack 0 s.stream.bytes_left (pb_decode program depth a dest s)
        × Left slack 0 s.stream.bytes_left (pb_decode_noinit program depth a dest s)
        × Left slack 1 s.stream.bytes_left (pb_decode_delimited program depth a dest s)
  unfolding pb_decode pb_decode_delimited
  pb_decode-Left depth a dest slack s below safe =
      let noinit = Keeps-pb_decode_noinit depth a dest below in
      let whole = Keeps-initialized (pb_decode_noinit program depth) a dest noinit in
      (
        whole slack s safe,
        noinit slack s safe,
        Keeps-in_substream _ close_after whole close_after-Closes slack s safe,
      )
