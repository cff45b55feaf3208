-- ===== src/Pb/Message/Nested.antt =====
-- Decoding inside a substream keeps the parent stream safe, whether it succeeds or fails.
use solta.Base.{ℕ, ◌+◌, ◌≡◌, subst, sym, arith, ◌==◌, Bool-cases, inl, inr}
use solta.Base.{Res, done, failed, fault, M, and_then, Leaves}
use solta.Pb.Errmsg.{array_overflow, callback_failed}
use solta.Pb.Istream.{Istream}
use solta.Pb.Istream.Safety.{IsSafe, After}
use solta.Pb.Substream.{pb_make_string_substream, pb_close_string_substream}
use solta.Pb.Substream.Safety.{Splits, make-Splits, IsBehind, close-Leaves}
use solta.Pb.Decode.Scalar.{Decoding, with_memory}
use solta.Pb.Message.Decoding.{close_with, close_after, status_false, in_substream, after_packed}
use solta.Pb.Message.Decoding.{after_callback}
use solta.Pb.Message.Keeps.{Left, Left-le, Keeps, Keeps-stop}

module _ {S : Type 0} where
  -- What stands after the run on a substream keeps the parent safe, if the run keeps the substream
  -- safe, with the bytes of the parent behind it.
  abbrev pub Closes : (Res (Decoding S) (Unit {0}) → M (Decoding S) (Unit {0})) → Type 0
  Closes after =
      (slack : ℕ) (r : Res (Decoding S) (Unit {0})) (s : Decoding S)
      → IsSafe slack s.stream
      → Leaves (λ t. IsSafe (slack + s.stream.bytes_left) t.stream)
          (λ t. IsSafe (slack + s.stream.bytes_left) t.stream) r
      → Left slack 0 s.stream.bytes_left (after r s)

  close_with-Left :
      (slack : ℕ) (t s : Decoding S)
      → IsSafe slack s.stream
      → IsSafe (slack + s.stream.bytes_left) t.stream
      → Left slack 0 s.stream.bytes_left (close_with t s)
  close_with-Left slack t s safe safe_t =
      go (pb_close_string_substream t.stream s.stream)
        (close-Leaves slack t.stream s.stream safe_t safe.small)
    where
      go :
          (r : Res (Istream S) (Unit {0}))
          → Leaves
              (λ u. IsSafe slack u × (u.bytes_left ≡ s.stream.bytes_left) × IsBehind t.stream u)
              (λ u. u ≡ s.stream)
              r
          → Left slack 0 s.stream.bytes_left (with_memory t.memory r)
      go (done a u) h = (h.0, omega (arith, h.1))
      go (failed u) h = subst (λ v. After slack 0 s.stream.bytes_left v) (sym h) (safe, omega arith)
      go fault h = h

  status_false-Left :
      (slack left : ℕ) (r : Res (Decoding S) (Unit {0}))
      → Left slack 0 left r
      → Left slack 0 left (status_false r)
  status_false-Left slack left (done a t) h = h
  status_false-Left slack left (failed t) h = h
  status_false-Left slack left fault h = h

  pub close_after-Closes : Closes close_after
  close_after-Closes slack (done a t) s safe h = close_with-Left slack t s safe h
  close_after-Closes slack (failed t) s safe h =
      status_false-Left slack s.stream.bytes_left _ (close_with-Left slack t s safe h)
  close_after-Closes slack fault s safe h = h

  pub after_packed-Closes : Closes after_packed
  after_packed-Closes slack (done a t) s safe h = elim (Bool-cases (t.stream.bytes_left == 0)) [
    | inl all_read ↦ rw all_read (close_with-Left slack t s safe h)
    | inr some_left ↦
        rw some_left (Keeps-stop 0 array_overflow slack (record s { memory = t.memory }) safe)
  ]
  after_packed-Closes slack (failed t) s safe h = elim (Bool-cases (t.stream.bytes_left == 0)) [
    | inl all_read ↦
        rw all_read
          (status_false-Left slack s.stream.bytes_left _ (close_with-Left slack t s safe h))
    | inr some_left ↦
        rw some_left (Keeps-stop 0 array_overflow slack (record s { memory = t.memory }) safe)
  ]
  after_packed-Closes slack fault s safe h = h

  pub after_callback-Closes : Closes after_callback
  after_callback-Closes slack (done a t) s safe h = close_with-Left slack t s safe h
  after_callback-Closes slack (failed t) s safe h =
      Keeps-stop 0 callback_failed slack (record s { memory = t.memory }) safe
  after_callback-Closes slack fault s safe h = h

  -- A decoder that works on a substream takes a byte at least, that of the length.
  pub Keeps-in_substream :
      (m : M (Decoding S) (Unit {0}))
      (after : Res (Decoding S) (Unit {0}) → M (Decoding S) (Unit {0}))
      → Keeps 0 m
      → Closes after
      → Keeps 1 (in_substream m after)
  Keeps-in_substream m after keeps closes slack s safe =
      go (pb_make_string_substream s.stream) (make-Splits slack s.stream safe)
    where
      only_safe :
          (slack left : ℕ) (r : Res (Decoding S) (Unit {0}))
          → Left slack 0 left r
          → Leaves (λ t. IsSafe slack t.stream) (λ t. IsSafe slack t.stream) r
      only_safe slack left (done a t) h = h.0
      only_safe slack left (failed t) h = h.0
      only_safe slack left fault h = h

      go :
          (r : Res (Istream S) (Istream S))
          → Splits slack s.stream.bytes_left r
          → Left slack 1 s.stream.bytes_left
              (and_then (with_memory s.memory r) (λ sub t. after (m (record t { stream = sub })) t))
      go (done sub parent) h =
          Left-le slack 0 1 parent.bytes_left s.stream.bytes_left _ (omega (arith, h.fewer)) (
            closes slack _ (record { stream = parent; memory = s.memory }) h.parent_safe
              (only_safe (slack + parent.bytes_left) sub.bytes_left _ (
                keeps (slack + parent.bytes_left) (record { stream = sub; memory = s.memory })
                  h.sub_safe)))
      go (failed t) h = h
      go fault h = h
