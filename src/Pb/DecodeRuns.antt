-- ===== src/Pb/DecodeRuns.antt =====
-- Concrete runs of the message decoder, and its theorems at concrete inputs.
use solta.Base.{ℕ, ◌-◌, ◌^◌, ◌≤◌, ◌≡◌, refl, arith, List, [], ◌∷◌, zero, suc, none, inl, done, pure}
use solta.Base.{M, Res, inr, failed, fault, and_then, ◌>>◌, ◌<◌, Leaves}
use solta.Pb.Istream.{Istream, pb_read}
use solta.Pb.Istream.Safety.{IsSafe, After, Takes-pb_read}
use solta.Pb.Istream.Buffer.{at}
use solta.Pb.Field.{field_at}
use solta.Pb.Decode.Scalar.{Decoding, on_stream, with_memory}
use solta.Pb.Message.Decoding
use solta.Pb.Message.Decode.{check_required, pb_decode, pb_decode_noinit, pb_decode_delimited}
use solta.Pb.Errmsg.{missing_required_field}
use solta.Pb.Message.Decoding.{stop}
use solta.Pb.Message.Required.{check_required-all_seen}
use solta.Pb.Message.Keeps.{Left}
use solta.Pb.Message.Sound.{IsSound, IsMessage}
use solta.Pb.Message.CallbackSafety.{IsPrompt, Prompted}
use solta.Pb.Message.RuleSafety.{IsProgram}
use solta.Pb.Message.Safety.{pb_decode-Left}
use solta.Pb.Memory.{Memory, load}
use solta.Pb.Field.{Field, null, message}
use solta.Pb.Field.Iter.{pb_field_iter_begin, pb_field_iter_next}
use solta.Pb.Message.Walk.{each_field}
use solta.Pb.Message.Confined.{Kept}
use solta.Pb.Message.Decoding.{pb_decoder}
use solta.Pb.Message.FieldBounds.{pb_decoder-Kept}
use solta.Pb.MessageRuns.{number_field, maybe_field, part_field, quiet_types, ones}

-- A user's function that reads all that is left.
abbrev read_all : M (Decoding ℕ) (Unit {0})
read_all s = on_stream (pb_read solta.Pb.Istream.null s.stream.bytes_left >> pure tt) s

read_all-IsPrompt : IsPrompt read_all
read_all-IsPrompt slack s safe =
    go (pb_read solta.Pb.Istream.null s.stream.bytes_left s.stream)
      (Takes-pb_read solta.Pb.Istream.null s.stream.bytes_left slack s.stream safe)
  where
    go :
        (r : Res (Istream ℕ) (List ℕ))
        → Leaves
            (After slack s.stream.bytes_left s.stream.bytes_left)
            (After slack 0 s.stream.bytes_left)
            r
        → Prompted slack s.stream.bytes_left (with_memory s.memory (and_then r (λ _. pure tt)))
    go (done bytes t) h = (h.0, inl (omega (arith, h.1)))
    go (failed t) h = h
    go fault h = h

abbrev reader : Decoding.Program ℕ
reader = record {
  types = quiet_types;
  callback = λ f field arg. read_all;
  extension = λ p f tag wire_type. pure tt;
  depth = 2;
  chain = 0;
  calls = 2 ^ 64;
}

abbrev rank : ℕ → ℕ
rank zero = 1
rank (suc n) = 0

reader-IsMessage : (a : ℕ) → IsMessage rank quiet_types a
reader-IsMessage zero = record {
  first = part_field;
  others = [];
  fields = refl;
  tags = (omega arith, tt);
  entries = entries;
  few_required = omega arith;
  not_a_word = omega arith;
}
  where
    entries : (i : ℕ) → i ≤ 0 → IsSound rank 1 (field_at (part_field ∷ []) i)
    entries zero le = (
      omega arith,
      λ _. inr (record { inner = 1; is_submessage = refl; points = refl; below = omega arith }),
    )
    entries (suc i) le = absurd (omega arith)
reader-IsMessage (suc n) = record {
  first = number_field;
  others = maybe_field ∷ [];
  fields = refl;
  tags = (omega arith, (omega arith, tt));
  entries = entries;
  few_required = omega arith;
  not_a_word = omega arith;
}
  where
    entries : (i : ℕ) → i ≤ 1 → IsSound rank 0 (field_at (number_field ∷ maybe_field ∷ []) i)
    entries zero le = (omega arith, λ _. inl (inl (omega arith), tt))
    entries (suc zero) le = (omega arith, λ _. inl (inl (omega arith), tt))
    entries (suc (suc i)) le = absurd (omega arith)

reader-IsProgram : IsProgram rank reader
reader-IsProgram = record {
  messages = reader-IsMessage;
  deep_enough = shallow;
  calls_enough = omega arith;
  prompt = λ f field arg. read_all-IsPrompt;
}
  where
    shallow : (a : ℕ) → rank a < 2
    shallow zero = omega arith
    shallow (suc n) = omega arith

-- Message 0 with the two numbers 7 and 5 in message 1.
abbrev arriving : Decoding ℕ
arriving = record { stream = at (0x1A ∷ 4 ∷ 0x08 ∷ 7 ∷ 0x10 ∷ 5 ∷ []) 6 none; memory = ones }

arriving-IsSafe : IsSafe 0 arriving.stream
arriving-IsSafe = record {
  covers = (
    omega arith,
    (omega arith, (omega arith, (omega arith, (omega arith, (omega arith, (omega arith, tt)))))),
  );
  small = omega arith;
}

pb_decode-Left_example :
    Left 0 0 6 (pb_decode reader 2 0 4096 arriving)
    × Left 0 0 6 (pb_decode_noinit reader 2 0 4096 arriving)
    × Left 0 1 6 (pb_decode_delimited reader 2 0 4096 arriving)
pb_decode-Left_example =
    pb_decode-Left rank reader reader-IsProgram 2 0 4096 0 arriving (omega arith) arriving-IsSafe

-- A required text of up to three characters, in a struct of memory.
abbrev text_field : Field
text_field = record {
  tag = 4;
  type = 0x06;
  data_offset = 0;
  size_offset = 0;
  data_size = 4;
  array_size = 0;
  ptr = null;
}

-- A text of two characters.
abbrev text : Decoding ℕ
text = record { stream = at (2 ∷ 104 ∷ 105 ∷ []) 3 none; memory = ones }

text-IsSafe : IsSafe 0 text.stream
text-IsSafe = record {
  covers = (omega arith, (omega arith, (omega arith, (omega arith, tt))));
  small = omega arith;
}

-- No message stands in a text.
abbrev nothing : ℕ → ℕ → M (Decoding ℕ) (Unit {0})
nothing a dest = pure tt

pb_decoder-Kept_example :
    Kept 4096 4 ones (pb_decoder nothing nothing text_field 4096 text)
    × Left 0 1 3 (pb_decoder nothing nothing text_field 4096 text)
pb_decoder-Kept_example =
    pb_decoder-Kept 4096 (omega arith) nothing nothing text_field 0 text (inl (omega arith), tt)
      (λ e. absurd (omega (arith, e))) (λ e. absurd (omega (arith, e))) text-IsSafe

-- The two numbers of message 1, and whether the second is there.
abbrev numbers : Res (Decoding ℕ) (Unit {0}) → ℕ × ℕ × ℕ
numbers (done a t) = (load 4 4096 t.memory, t.memory 4100, load 4 4104 t.memory)
numbers (failed t) = (0, 0, 0)
numbers fault = (0, 0, 0)

decode_arriving : numbers (pb_decode reader 2 0 4096 arriving) ≡ (7, 1, 5)
unfolding pb_decode pb_decode_noinit solta.Pb.Message.Decode.field_rounds
    solta.Pb.Message.Decoding.decode_field solta.Pb.Message.Decoding.decode_static_field pb_decoder
    solta.Pb.Message.Decoding.pb_dec_submessage solta.Pb.Substream.pb_make_string_substream
    solta.Pb.Substream.pb_close_string_substream solta.Pb.Varint.pb_decode_tag
    solta.Pb.Varint.pb_decode_varint32 solta.Pb.Istream.pb_readbyte
    solta.Pb.Field.Iter.pb_field_iter_find solta.Pb.Field.Iter.find_rounds pb_field_iter_next
    pb_field_iter_begin solta.Pb.Decode.Scalar.pb_dec_uvarint solta.Pb.Varint.varint_rounds
    solta.Pb.Varint.pb_decode_varint solta.Pb.Memory.store load
    solta.Pb.Message.Reset.pb_message_set_to_defaults solta.Pb.Message.Reset.pb_field_set_to_default
    each_field solta.Pb.Decode.Bytes.clear solta.Pb.Message.Decode.last_rounds check_required
    solta.Pb.Message.Decode.check_words
decode_arriving = refl

-- Of 34 required fields all but the last were seen.
check_required-all_seen_example :
    check_required (record { low = 2 ^ 32 - 1; high = 1 }) 34 arriving
    ≡ stop missing_required_field arriving
check_required-all_seen_example =
    check_required-all_seen (record { low = 2 ^ 32 - 1; high = 1 }) 34 arriving (omega arith)
      (λ e. absurd (omega (arith, e))) (omega arith, omega arith)
