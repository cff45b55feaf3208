-- ===== src/Pb/Message/CallbackSafety.antt =====
-- Decoding a callback field keeps the stream safe, if the user's function keeps its rules.
use solta.Base.{
  ℕ, zero, suc, ◌≤◌, ◌<◌, ◌^◌, ◌≡◌, arith, ◌==◌, Bool-cases, inl, inr, ◌⊎◌, length, List,
  if◌then◌else◌,
}
use solta.Base.{Res, done, failed, fault, M, and_then, ◌>>=◌, Leaves}
use solta.Pb.Istream.{Istream, pb_istream_from_buffer}
use solta.Pb.Istream.Safety.{IsSafe, After, Takes-fewer}
use solta.Pb.Istream.Values.{Holds}
use solta.Pb.Varint.{read_raw_value}
use solta.Pb.Varint.Safety.{Takes-pb_skip_field, Takes-read_raw_value}
use solta.Pb.Varint.Bounds.{IsRaw, Gives-read_raw_value}
use solta.Pb.Decode.Scalar.{Decoding, on_stream, with_memory}
use solta.Pb.Message.Decoding.{
  callback_rounds, after_callback, keep_stream, callback_value, decode_by,
}
use solta.Pb.Message.Keeps.{AfterIn, Left, Left-le, Keeps, Keeps-on_stream, Keeps-fewer, Keeps-if}
use solta.Pb.Message.Nested.{Keeps-in_substream, after_callback-Closes}

module _ {S : Type 0} where
  -- A success has read something, or has left nothing.
  abbrev pub Prompted : ℕ → ℕ → Res (Decoding S) (Unit {0}) → Type 0
  Prompted slack left r =
      Leaves
        (λ t. IsSafe slack t.stream × ((t.stream.bytes_left ≡ 0) ⊎ (t.stream.bytes_left < left)))
        (AfterIn slack 0 left) r

  -- The rules for a user's function: on a safe stream it returns, keeps the stream safe, and if it
  -- succeeds, it has read something, or there is nothing left.
  abbrev pub IsPrompt : M (Decoding S) (Unit {0}) → Type 0
  IsPrompt decode =
      (slack : ℕ) (s : Decoding S)
      → IsSafe slack s.stream
      → Prompted slack s.stream.bytes_left (decode s)

  IsPrompt-Keeps : (decode : M (Decoding S) (Unit {0})) → IsPrompt decode → Keeps 0 decode
  IsPrompt-Keeps decode prompt slack s safe = go (decode s) (prompt slack s safe)
    where
      go :
          (r : Res (Decoding S) (Unit {0}))
          → Prompted slack s.stream.bytes_left r
          → Left slack 0 s.stream.bytes_left r
      go (done a t) h = (h.0, ground (arith, h.1))
      go (failed t) h = h
      go fault h = h

  -- What follows a call is run only where something is left, which is less than before.
  and_then-Prompted :
      (slack left : ℕ) (r : Res (Decoding S) (Unit {0})) (rest : M (Decoding S) (Unit {0}))
      → Prompted slack left r
      → ((t : Decoding S)
          → IsSafe slack t.stream
          → t.stream.bytes_left < left
          → Left slack 0 t.stream.bytes_left (rest t))
      → Left slack 0 left
          (and_then r (λ _ t. if t.stream.bytes_left == 0 then done tt t else rest t))
  and_then-Prompted slack left (done a t) rest (safe_t, fewer) later =
      elim (Bool-cases (t.stream.bytes_left == 0)) [
        | inl none_left ↦ rw none_left (safe_t, ground arith)
        | inr some_left ↦
            let less : t.stream.bytes_left < left = ground (arith, fewer) in
            rw some_left (
              Left-le slack 0 0 t.stream.bytes_left left (rest t) (omega (arith, less))
                (later t safe_t less))
      ]
  and_then-Prompted slack left (failed t) rest h later = h
  and_then-Prompted slack left fault rest h later = h

  -- A function that reads something whenever it is called again is called once for each byte at most.
  callback_rounds-Left :
      (decode : M (Decoding S) (Unit {0}))
      → IsPrompt decode
      → (calls slack : ℕ) (s : Decoding S) → IsSafe slack s.stream
      → s.stream.bytes_left < calls
      → Left slack 0 s.stream.bytes_left (callback_rounds decode calls s)
  unfolding callback_rounds
  callback_rounds-Left decode prompt zero slack s safe enough = absurd (omega arith)
  callback_rounds-Left decode prompt (suc calls) slack s safe enough =
      and_then-Prompted slack s.stream.bytes_left (decode s) (callback_rounds decode calls)
        (prompt slack s safe)
        (λ t safe_t less.
          callback_rounds-Left decode prompt calls slack t safe_t (omega (arith, less)))

  -- The function is called on the bytes that were read, as on any stream.
  callback_value-Left :
      (decode : M (Decoding S) (Unit {0})) (wire_type : ℕ)
      → IsPrompt decode
      → Keeps 0 (on_stream (read_raw_value wire_type 10) >>= callback_value decode)
  unfolding pb_istream_from_buffer
  callback_value-Left decode wire_type prompt slack s safe =
      go (read_raw_value wire_type 10 s.stream)
        (Takes-read_raw_value wire_type 10 (omega arith) slack s.stream safe)
        (Gives-read_raw_value wire_type slack s.stream safe)
    where
      kept :
          (t : Istream S) (left k : ℕ) (r : Res (Decoding S) (Unit {0}))
          → After slack 0 left t
          → Left 0 0 k r
          → Left slack 0 left (keep_stream t r)
      kept t left k (done a u) safe_t h = safe_t
      kept t left k (failed u) safe_t h = safe_t
      kept t left k fault safe_t h = h

      go :
          (r : Res (Istream S) (List ℕ))
          → Leaves (After slack 0 s.stream.bytes_left) (After slack 0 s.stream.bytes_left) r
          → Holds (IsRaw 10) r
          → Left slack 0 s.stream.bytes_left
              (and_then (with_memory s.memory r) (callback_value decode))
      go (done bytes t) safe_t raw = kept t s.stream.bytes_left (length bytes) _ safe_t (
          IsPrompt-Keeps decode prompt 0
            (record { stream = pb_istream_from_buffer bytes (length bytes); memory = s.memory })
            (record { covers = (omega arith, raw.1); small = omega (arith, raw.0) }))
      go (failed t) h raw = h
      go fault h raw = h

  pub Keeps-decode_by :
      (f : ℕ) (decode : M (Decoding S) (Unit {0})) (calls wire_type : ℕ)
      → IsPrompt decode
      → 2 ^ 64 ≤ calls
      → Keeps 0 (decode_by f decode calls wire_type)
  Keeps-decode_by f decode calls wire_type prompt enough =
      Keeps-if 0 (f == 0) _ _
        (Keeps-on_stream 0 _ (Takes-fewer 1 0 _ (omega arith) (Takes-pb_skip_field wire_type)))
        (Keeps-if 0 (wire_type == 2) _ _
          (Keeps-fewer 1 0 _ (omega arith) (
            Keeps-in_substream (callback_rounds decode calls) after_callback
              (λ slack s safe.
                callback_rounds-Left decode prompt calls slack s safe (omega (arith, safe.small)))
              after_callback-Closes))
          (callback_value-Left decode wire_type prompt))
