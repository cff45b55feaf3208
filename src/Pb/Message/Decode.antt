-- ===== src/Pb/Message/Decode.antt =====
-- Extensions and "Decode all fields" of SOLTA/Pods/nanopb/pb_decode.c.
use solta.Base.{
  ℕ, zero, suc, ◌+◌, ◌-◌, ◌/◌, ◌%◌, ◌^◌, bit_or, ltb, leb, ◌==◌, if◌then◌else◌, ◌&&◌, not,
}
use solta.Base.{Bool, true, false, length, Option, none, some}
use solta.Base.{done, failed, fault, M, pure, crash, ◌>>=◌, ◌>>◌}
use solta.Pb.Errmsg.{missing_required_field}
use solta.Pb.Varint.{TagRead, tagged, eof, bad, broken, pb_decode_tag, pb_skip_field}
use solta.Pb.Memory.{load}
use solta.Pb.Field.Ltype
use solta.Pb.Field.Htype
use solta.Pb.Field.{field_at, ltype, htype}
use solta.Pb.Field.Iter.{
  FieldIter, pos, pb_field_iter_begin, pb_field_iter_next, pb_field_iter_find,
}
use solta.Pb.Decode.Scalar.{Decoding, on_stream, put}
use solta.Pb.Message.Walk.{extension_type, extension_next, extension_found, type_decode, type_arg}
use solta.Pb.Message.Reset.{iter_from_extension, pb_message_set_to_defaults}
use solta.Pb.Message.Decoding.{Program, Decoder, stop, in_substream, close_after, on_memory}
use solta.Pb.Message.Decoding.{pb_decoder, decode_field}

-- `fields_seen`, of two words; an index beyond them is outside the array.
pub record Seen : Type 0 where
  pub low : ℕ
  pub high : ℕ

abbrev pub seen_word : Seen → ℕ → Option ℕ
seen_word seen zero = some seen.low
seen_word seen (suc zero) = some seen.high
seen_word seen (suc (suc i)) = none

-- `fields_seen[index >> 5] |= 1 << (index & 31)`, for an index below 64.
abbrev pub mark : ℕ → Seen → Seen
mark index seen =
    if ltb index 32
    then record seen { low = bit_or seen.low (2 ^ index) }
    else record seen { high = bit_or seen.high (2 ^ (index - 32)) }

abbrev pub mark_required : FieldIter → Seen → Seen
mark_required iter seen =
    if htype (pos iter).type == Htype.required && ltb iter.required_field_index 64
    then mark iter.required_field_index seen
    else seen

-- The loop of `find_extension_field`; `none` is the end of the fuel.
unfoldable pub extension_rounds : ℕ → ℕ → FieldIter → Option (FieldIter × Bool)
extension_rounds zero first iter = none
extension_rounds (suc fuel) first iter =
    let next = (pb_field_iter_next iter).0 in
    let more = extension_rounds fuel first next in
    if ltype (pos iter).type == Ltype.extension
    then some (iter, true)
    else if next.index == first
    then some (next, false)
    else more

unfoldable pub find_extension_field : FieldIter → Option (FieldIter × Bool)
find_extension_field iter = extension_rounds (length iter.start + 1) iter.index iter

-- The loop that seeks to the end of the array: the count of required fields before the last one, the
-- type of that one, and the iterator after it.
unfoldable pub last_rounds : ℕ → FieldIter → Option (ℕ × ℕ × FieldIter)
last_rounds zero iter = none
last_rounds (suc fuel) iter =
    let (next, more) = pb_field_iter_next iter in
    let rest = last_rounds fuel next in
    if more then rest else some (iter.required_field_index, (pos iter).type, next)

abbrev pub required_count : ℕ × ℕ × FieldIter → ℕ
required_count (count, last_type, iter) =
    if htype last_type == Htype.required && not ((pos iter).tag == 0) then count + 1 else count

abbrev pub allbits : ℕ
allbits = 2 ^ 32 - 1

-- What the loop over the tags keeps: the iterator, `fields_seen` and `extension_range_start`.
abbrev pub Loop : Type 0
Loop = FieldIter × Seen × ℕ

module _ {S : Type 0} where
  -- `if (fields_seen[i] != bits)`; reading past the array is undefined.
  abbrev pub check_word : ℕ → Option ℕ → M (Decoding S) (Unit {0})
  check_word bits none = crash
  check_word bits (some word) = if word == bits then pure tt else stop missing_required_field

  unfoldable pub check_words : Seen → ℕ → ℕ → M (Decoding S) (Unit {0})
  check_words seen i zero = pure tt
  check_words seen i (suc n) = check_word allbits (seen_word seen i) >> check_words seen (i + 1) n

  -- `fields_seen[count >> 5] != (allbits >> (32 - (count & 31)))`; a shift by 32 is undefined.
  abbrev pub check_rest : Seen → ℕ → M (Decoding S) (Unit {0})
  check_rest seen count =
      if count % 32 == 0
      then crash
      else check_word (allbits / 2 ^ (32 - count % 32)) (seen_word seen (count / 32))

  unfoldable pub check_required : Seen → ℕ → M (Decoding S) (Unit {0})
  check_required seen count =
      if count == 0 then pure tt else (check_words seen 0 (count / 32) >> check_rest seen count)

  abbrev pub check_last : Seen → Option (ℕ × ℕ × FieldIter) → M (Decoding S) (Unit {0})
  check_last seen none = crash
  check_last seen (some last) = check_required seen (required_count last)

  -- The check after the loop.
  abbrev pub check_end : FieldIter × Seen → M (Decoding S) (Unit {0})
  check_end (iter, seen) = check_last seen (last_rounds (length iter.start + 1) iter)

  -- A round of the loop, by what `pb_decode_tag` has read: `one` is for a field with a tag and a wire
  -- type, `rest` for the rounds after it, and `kept` what the loop keeps when the stream has ended.
  abbrev pub after_tag :
      (ℕ → ℕ → M (Decoding S) Loop)
      → (Loop → M (Decoding S) (FieldIter × Seen))
      → FieldIter × Seen
      → TagRead S
      → M (Decoding S) (FieldIter × Seen)
  after_tag one rest kept (tagged wire_type tag t) s =
      (one tag wire_type >>= rest) (record s { stream = t })
  after_tag one rest kept (eof t) s = done kept (record s { stream = t })
  after_tag one rest kept (bad t) s = failed (record s { stream = t })
  after_tag one rest kept broken s = fault

module _ {S : Type 0} (program : Program S) (func : Decoder S) where
  -- The argument before the tag is the address of the extension.
  unfoldable pub default_extension_decoder : ℕ → ℕ → ℕ → M (Decoding S) (Unit {0})
  default_extension_decoder p tag wire_type s =
      let field = field_at (program.types (type_arg (extension_type p s.memory) s.memory)) 0 in
      let iter = iter_from_extension program.types p s.memory in
      if field.tag == tag
      then (put 1 (extension_found p) 1 >> decode_field program func wire_type iter) s
      else done tt s

  abbrev pub decode_one_extension : ℕ → ℕ → ℕ → M (Decoding S) (Unit {0})
  decode_one_extension p tag wire_type s =
      let decode = type_decode (extension_type p s.memory) s.memory in
      if decode == 0
      then default_extension_decoder p tag wire_type s
      else program.extension decode p tag wire_type s

  -- The `while` loop of `decode_extension`; `left` is what `pos` holds.
  unfoldable pub decode_extensions : ℕ → ℕ → ℕ → ℕ → ℕ → M (Decoding S) (Unit {0})
  decode_extensions zero p left tag wire_type s =
      if p == 0 then done tt s else if s.stream.bytes_left == left then fault else done tt s
  decode_extensions (suc chain) p left tag wire_type s =
      let next = λ (t : Decoding S).
        decode_extensions chain (extension_next p t.memory) left tag wire_type t in
      let round = (decode_one_extension p tag wire_type >> next) s in
      if p == 0 then done tt s else if s.stream.bytes_left == left then round else done tt s

  unfoldable pub decode_extension : ℕ → ℕ → FieldIter → M (Decoding S) (Unit {0})
  decode_extension tag wire_type iter s =
      decode_extensions program.chain (load 8 iter.p_data s.memory) s.stream.bytes_left tag
        wire_type s

  abbrev pub skip_unknown : ℕ → Loop → M (Decoding S) Loop
  skip_unknown wire_type loop = on_stream (pb_skip_field wire_type) >> pure loop

  -- After `decode_extension`: the field was handled, or it is skipped.
  abbrev pub handled : ℕ → ℕ → Loop → M (Decoding S) Loop
  handled left wire_type loop s =
      if s.stream.bytes_left == left then skip_unknown wire_type loop s else done loop s

  -- From `extension_range_start` on, where it has just been set.
  abbrev pub try_extension : ℕ → ℕ → Loop → M (Decoding S) Loop
  try_extension tag wire_type (iter, seen, range) s =
      if leb range tag
      then (decode_extension tag wire_type iter
            >> handled s.stream.bytes_left wire_type (iter, seen, range))
          s
      else skip_unknown wire_type (iter, seen, range) s

  abbrev pub range_found : ℕ → ℕ → Seen → Option (FieldIter × Bool) → M (Decoding S) Loop
  range_found tag wire_type seen none = crash
  range_found tag wire_type seen (some (iter, true)) =
      try_extension tag wire_type (iter, seen, (pos iter).tag)
  range_found tag wire_type seen (some (iter, false)) =
      try_extension tag wire_type (iter, seen, 2 ^ 32 - 1)

  -- A field whose tag is not in the message type.
  abbrev pub unknown_field : ℕ → ℕ → Loop → M (Decoding S) Loop
  unknown_field tag wire_type (iter, seen, range) =
      if leb range tag
      then range_found tag wire_type seen (find_extension_field iter)
      else skip_unknown wire_type (iter, seen, range)

  -- One field, by what `pb_field_iter_find` has found.
  abbrev pub one_field : ℕ → ℕ → Seen → ℕ → Option (FieldIter × Bool) → M (Decoding S) Loop
  one_field tag wire_type seen range none = crash
  one_field tag wire_type seen range (some (iter, false)) =
      unknown_field tag wire_type (iter, seen, range)
  one_field tag wire_type seen range (some (iter, true)) =
      decode_field program func wire_type iter >> pure (iter, mark_required iter seen, range)

  -- The loop over the tags. Each field takes a byte at least, so one round more than the bytes of the
  -- stream is enough.
  unfoldable pub field_rounds : ℕ → Loop → M (Decoding S) (FieldIter × Seen)
  field_rounds zero loop s = fault
  field_rounds (suc fuel) (iter, seen, range) s =
      let one =
        λ (tag wire_type : ℕ). one_field tag wire_type seen range (pb_field_iter_find tag iter) in
      let rest = field_rounds fuel in
      if s.stream.bytes_left == 0
      then done (iter, seen) s
      else after_tag one rest (iter, seen) (pb_decode_tag s.stream) s

module _ {S : Type 0} (program : Program S) where
  -- `pb_decode_noinit` of a message type, for decoders of the fields; the iterator is at its start.
  abbrev pub decode_fields : Decoder S → FieldIter → M (Decoding S) (Unit {0})
  decode_fields func iter s =
      (field_rounds program func (s.stream.bytes_left + 1) (iter, record { low = 0; high = 0 }, 0)
          >>= check_end)
        s

  abbrev pub set_to_defaults : ℕ → ℕ → M (Decoding S) (Unit {0})
  set_to_defaults a dest =
      on_memory (
        pb_message_set_to_defaults program.depth program.chain program.types (program.types a) dest)

  -- `pb_decode`, by what `pb_decode_noinit` is.
  abbrev pub initialized : (ℕ → ℕ → M (Decoding S) (Unit {0})) → ℕ → ℕ → M (Decoding S) (Unit {0})
  initialized noinit a dest = set_to_defaults a dest >> noinit a dest

  -- The first number is how deep messages are nested, the second the address of the fields.
  unfoldable pub pb_decode_noinit : ℕ → ℕ → ℕ → M (Decoding S) (Unit {0})
  pb_decode_noinit zero a dest = crash
  pb_decode_noinit (suc depth) a dest =
      let sub_noinit = pb_decode_noinit depth in
      decode_fields (pb_decoder (initialized sub_noinit) sub_noinit)
        (pb_field_iter_begin (program.types a) dest).0

  unfoldable pub pb_decode : ℕ → ℕ → ℕ → M (Decoding S) (Unit {0})
  pb_decode depth = initialized (pb_decode_noinit depth)

  unfoldable pub pb_decode_delimited : ℕ → ℕ → ℕ → M (Decoding S) (Unit {0})
  pb_decode_delimited depth a dest = in_substream (pb_decode depth a dest) close_after
