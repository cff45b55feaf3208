-- ===== src/Pb/Ostream/Safety.antt =====
-- No write goes outside the array behind a stream, nor past `max_size`.
use solta.Base.{ℕ, ◌+◌, ◌≤◌, ◌<◌, ◌%◌, ◌^◌, ◌≡◌, arith, ltb, leb, Bool-cases}
use solta.Base.{length, take, List, Option, inl, inr, Leaves}
use solta.Pb.Errmsg.{Errmsg}
use solta.Pb.Ostream.{Ostream, Sink, sizing, buf_write, user, pb_write, write_to}

-- What `max_size` and `bytes_written` say of the callback: a stream with one has not written more
-- than `max_size`, and an array has room for the rest.
abbrev pub Bounds : {S : Type 0} → Sink S → ℕ → ℕ → Type 0
Bounds sizing limit written = Unit {0}
Bounds (buf_write stored room) limit written = (written ≤ limit) × (limit ≤ written + room)
Bounds (user f state) limit written = written ≤ limit

module _ {S : Type 0} where
  abbrev pub IsWithin : Ostream S → Type 0
  IsWithin s = Bounds s.sink s.max_size s.bytes_written

  abbrev pub Wrote : ℕ → Ostream S → Type 0
  Wrote written t = IsWithin t × (t.bytes_written ≡ written)

  abbrev stream : Sink S → ℕ → ℕ → Option Errmsg → Ostream S
  stream sink limit written e = record {
    sink = sink;
    max_size = limit;
    bytes_written = written;
    errmsg = e;
  }

  write_to-Leaves :
      (sink : Sink S) (limit written : ℕ) (e : Option Errmsg) (buf : List ℕ) (count : ℕ)
      → Bounds sink limit written
      → count ≤ length buf
      → written + count < 2 ^ 64
      → Leaves
          (Wrote (written + count))
          (Wrote written)
          (write_to sink buf count (stream sink limit written e))
  write_to-Leaves sizing limit written e buf count h k u = (tt, omega arith)
  write_to-Leaves (buf_write stored room) limit written e buf count h k u =
      elim (Bool-cases (ltb limit ((written + count) % 2 ^ 64))) [
        | inl full ↦ rw full (h, omega arith)
        | inr free ↦ elim (Bool-cases (leb count room)) [
          | inl fits ↦ elim (Bool-cases (leb count (length buf))) [
            | inl enough ↦ rw (free, fits, enough) ((ground arith, ground arith), omega arith)
            | inr short ↦ absurd (ground arith)
          ]
          | inr over ↦ absurd (ground arith)
        ]
      ]
  write_to-Leaves (user f state) limit written e buf count h k u =
      elim (Bool-cases (ltb limit ((written + count) % 2 ^ 64))) [
        | inl full ↦ rw full (h, omega arith)
        | inr free ↦ elim (Bool-cases (leb count (length buf))) [
          | inl enough ↦ elim (Bool-cases (f state (take count buf)).ok) [
            | inl fine ↦ rw (free, enough, fine) (ground arith, omega arith)
            | inr bad ↦ rw (free, enough, bad) (h, omega arith)
          ]
          | inr short ↦ absurd (ground arith)
        ]
      ]

  -- For a stream that has not written more than `max_size`, whose array, if it has one, has room for
  -- the rest, and for a count that `buf` has and that does not take `bytes_written` to 2 ^ 64:
  -- `pb_write` accesses nothing outside `buf` and the array. When it succeeds `bytes_written` is
  -- higher by the count, when it fails it is the same, and the stream is as before in this respect.
  -- Streams that only measure a size have no limit.
  pub pb_write-Leaves :
      (s : Ostream S) (buf : List ℕ) (count : ℕ)
      → IsWithin s
      → count ≤ length buf
      → s.bytes_written + count < 2 ^ 64
      → Leaves (Wrote (s.bytes_written + count)) (Wrote s.bytes_written) (pb_write buf count s)
  unfolding pb_write
  pb_write-Leaves s buf count h k u =
      write_to-Leaves s.sink s.max_size s.bytes_written s.errmsg buf count h k u
