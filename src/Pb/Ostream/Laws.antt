-- ===== src/Pb/Ostream/Laws.antt =====
-- Writes into a buffer, by equations, and the limit that every stream keeps.
use solta.Base.{ℕ, ◌+◌, ◌-◌, ◌≤◌, ◌<◌, ◌^◌, ◌≡◌, arith}
use solta.Base.{length, take_all, List, ◌++◌, Option}
use solta.Base.{done, failed}
use solta.Pb.Errmsg.{Errmsg, keep_first, stream_full}
use solta.Pb.Ostream.{Ostream, buf_write, pb_write}

module _ {S : Type 0} where
  -- The stream into an array: what it holds so far, the bytes that follow, and `max_size`.
  abbrev pub filling : List ℕ → ℕ → ℕ → ℕ → Option Errmsg → Ostream S
  filling stored room limit written e = record {
    sink = buf_write stored room;
    max_size = limit;
    bytes_written = written;
    errmsg = e;
  }

  pub write-filling :
      (buf stored : List ℕ) (room limit written : ℕ) (e : Option Errmsg)
      → length buf ≤ room
      → written + length buf ≤ limit
      → limit < 2 ^ 64
      → pb_write {S = S} buf (length buf) (filling stored room limit written e)
        ≡ done tt (filling (stored ++ buf) (room - length buf) limit (written + length buf) e)
  unfolding pb_write
  write-filling buf stored room limit written e h k u = ground (arith, take_all buf)

  -- A write that the limit does not allow stores nothing.
  pub write_full :
      (buf stored : List ℕ) (count room limit written : ℕ) (e : Option Errmsg)
      → limit < written + count
      → written + count < 2 ^ 64
      → pb_write {S = S} buf count (filling stored room limit written e)
        ≡ failed (filling stored room limit written (keep_first e stream_full))
  unfolding pb_write
  write_full buf stored count room limit written e h u = ground arith
