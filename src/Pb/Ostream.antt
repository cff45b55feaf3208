-- ===== src/Pb/Ostream.antt =====
-- Output streams: the first part of SOLTA/Pods/nanopb/pb_encode.c and `pb_ostream_s` of pb_encode.h,
-- built with a 64-bit size_t and without PB_BUFFER_ONLY and PB_NO_ERRMSG.
pub mod Laws
pub mod Safety
use solta.Base.{ℕ, ◌+◌, ◌-◌, ◌%◌, ◌^◌, ltb, leb, if◌then◌else◌, length, take, ◌&&◌}
use solta.Base.{Bool, true, false, List, [], ◌++◌, Option, none, some}
use solta.Base.{Res, done, failed, fault, M, pure, and_then, ◌>>=◌, ◌>>◌}
use solta.Pb.Errmsg.{Errmsg, keep_first, stream_full, io_error}

-- What a call of a user's write callback does: its status, and the `state` that it leaves.
pub record UserWrite (S : Type 0) : Type 0 where
  pub ok : Bool
  pub state : S

-- `callback` and `state` together. `sizing` is the NULL callback of PB_OSTREAM_SIZING. For
-- `buf_write` the state points into an array: what has been stored there, in order, and how many
-- bytes of the array follow. A user's callback is given its state and the bytes.
pub data Sink (S : Type 0) : Type 0 where
  sizing : Sink S
  buf_write : List ℕ → ℕ → Sink S
  user : (S → List ℕ → UserWrite S) → S → Sink S

pub record Ostream (S : Type 0) : Type 0 where
  pub sink : Sink S
  pub max_size : ℕ
  pub bytes_written : ℕ
  pub errmsg : Option Errmsg

module _ {S : Type 0} where
  abbrev pub set_error : Errmsg → Ostream S → Ostream S
  set_error e s = record s { errmsg = keep_first s.errmsg e }

  -- `PB_RETURN_ERROR`.
  abbrev pub return_error : {A : Type 0} → Errmsg → M (Ostream S) A
  return_error e s = failed (set_error e s)

  -- `if (!call) PB_RETURN_ERROR(stream, e);`
  abbrev pub with_error : {A : Type 0} → Errmsg → Res (Ostream S) A → Res (Ostream S) A
  with_error e (done a t) = done a t
  with_error e (failed t) = failed (set_error e t)
  with_error e fault = fault

  -- `stream->bytes_written += count`, on size_t.
  abbrev pub count_written : ℕ → M (Ostream S) (Unit {0})
  count_written count s = done tt (record s { bytes_written = (s.bytes_written + count) % 2 ^ 64 })

  abbrev pub user_outcome :
      (S → List ℕ → UserWrite S) → Ostream S → UserWrite S → Res (Ostream S) (Unit {0})
  user_outcome f s r =
      let t : Ostream S = record s { sink = user f r.state } in if r.ok then done tt t else failed t

  -- `stream->callback(stream, buf, count)`. Reading past the end of `buf` and writing past the end
  -- of the stream's array are faults.
  abbrev pub call : Sink S → List ℕ → ℕ → M (Ostream S) (Unit {0})
  call sizing buf count s = fault
  call (buf_write stored room) buf count s =
      if leb count room && leb count (length buf)
      then done tt (record s { sink = buf_write (stored ++ take count buf) (room - count) })
      else fault
  call (user f state) buf count s =
      if leb count (length buf) then user_outcome f s (f state (take count buf)) else fault

  abbrev pub write_checked : List ℕ → ℕ → M (Ostream S) (Unit {0})
  write_checked buf count s =
      if ltb s.max_size ((s.bytes_written + count) % 2 ^ 64)
      then return_error stream_full s
      else and_then (with_error io_error (call s.sink buf count s)) (λ _. count_written count)

  abbrev pub write_to : Sink S → List ℕ → ℕ → M (Ostream S) (Unit {0})
  write_to sizing buf count = count_written count
  write_to (buf_write stored room) buf count = write_checked buf count
  write_to (user f state) buf count = write_checked buf count

  -- A NULL `buf` is the empty list.
  unfoldable pub pb_write : List ℕ → ℕ → M (Ostream S) (Unit {0})
  pb_write buf count s = write_to s.sink buf count s

  -- PB_OSTREAM_SIZING.
  unfoldable pub sizing_stream : Ostream S
  sizing_stream = record { sink = sizing; max_size = 0; bytes_written = 0; errmsg = none }

  -- `pb_ostream_from_buffer`, on an array of `room` bytes.
  unfoldable pub pb_ostream_from_buffer : ℕ → ℕ → Ostream S
  pb_ostream_from_buffer room bufsize = record {
    sink = buf_write [] room;
    max_size = bufsize;
    bytes_written = 0;
    errmsg = none;
  }
