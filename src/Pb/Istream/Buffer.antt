-- ===== src/Pb/Istream/Buffer.antt =====
-- Reads from a stream over an array, by equations.
use solta.Base.{ℕ, ◌+◌, ◌<◌, ◌^◌, ◌≡◌, refl, arith}
use solta.Base.{length, take-append, drop-append, length-append}
use solta.Base.{List, ◌∷◌, ◌++◌, Option}
use solta.Base.{done, failed}
use solta.Pb.Errmsg.{Errmsg, keep_first, end_of_stream}
use solta.Pb.Istream.{Istream, buf_read, Dest, null, into}
use solta.Pb.Istream.{read_checked, pb_read, pb_readbyte}

module _ {S : Type 0} where
  -- The stream over `bytes`, of which `bytes_left` are to be read.
  abbrev pub at : List ℕ → ℕ → Option Errmsg → Istream S
  at bytes left e = record { source = buf_read bytes; bytes_left = left; errmsg = e }

  pub readbyte-at :
      (b : ℕ) (bytes : List ℕ) (left : ℕ) (e : Option Errmsg)
      → left + 1 < 2 ^ 64
      → pb_readbyte {S = S} (at (b ∷ bytes) (left + 1) e) ≡ done b (at bytes left e)
  unfolding pb_readbyte
  readbyte-at b bytes left e h = ground arith

  pub readbyte_empty :
      (bytes : List ℕ) (e : Option Errmsg)
      → pb_readbyte {S = S} (at bytes 0 e) ≡ failed (at bytes 0 (keep_first e end_of_stream))
  unfolding pb_readbyte
  readbyte_empty bytes e = refl

  read_checked-at :
      (front rest : List ℕ) (left : ℕ) (e : Option Errmsg)
      → length front + left < 2 ^ 64
      → read_checked {S = S} (length front) (at (front ++ rest) (length front + left) e)
        ≡ done front (at rest left e)
  unfolding read_checked
  read_checked-at front rest left e h =
      ground (arith, length-append front rest, take-append front rest, drop-append front rest)

  -- The bytes asked for come off the front of the array, and off `bytes_left`.
  pub read-at :
      (buf : Dest) (front rest : List ℕ) (left : ℕ) (e : Option Errmsg)
      → length front + left < 2 ^ 64
      → pb_read {S = S} buf (length front) (at (front ++ rest) (length front + left) e)
        ≡ done front (at rest left e)
  unfolding pb_read
  read-at null front rest left e h = read_checked-at front rest left e h
  read-at into front rest left e h = read_checked-at front rest left e h

  -- A count beyond `bytes_left` is refused before anything is read.
  pub read_short :
      (buf : Dest) (bytes : List ℕ) (count left : ℕ) (e : Option Errmsg)
      → left < count
      → pb_read {S = S} buf count (at bytes left e)
        ≡ failed (at bytes left (keep_first e end_of_stream))
  unfolding pb_read read_checked
  read_short null bytes count left e h = ground arith
  read_short into bytes count left e h = ground arith
