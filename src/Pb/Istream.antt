-- ===== src/Pb/Istream.antt =====
-- Input streams: the first part of SOLTA/Pods/nanopb/pb_decode.c and `pb_istream_s` of pb_decode.h,
-- built with a 64-bit size_t and without PB_BUFFER_ONLY and PB_NO_ERRMSG.
pub mod Safety
pub mod Buffer
pub mod Values
use solta.Base.{ℕ, zero, suc, ◌+◌, ◌-◌, ◌%◌, ◌^◌, ltb, leb, ◌==◌, if◌then◌else◌, length, take, drop}
use solta.Base.{Bool, true, false, List, [], ◌∷◌, Option, none, some}
use solta.Base.{Res, done, failed, fault, M, pure, ◌>>=◌, ◌>>◌}
use solta.Pb.Errmsg.{Errmsg, keep_first, end_of_stream, io_error}

-- What a call of a user's read callback does: its status, what it stores into the buffer, and the
-- `state` and `bytes_left` that it leaves in the stream.
pub record UserRead (S : Type 0) : Type 0 where
  pub ok : Bool
  pub bytes : ℕ → ℕ
  pub state : S
  pub bytes_left : ℕ

-- `callback` and `state` together. For `buf_read` the state points into an array, and is the part
-- of that array from there on; a user's callback is given its state, `bytes_left` and the count.
pub data Source (S : Type 0) : Type 0 where
  buf_read : List ℕ → Source S
  user : (S → ℕ → ℕ → UserRead S) → S → Source S

pub record Istream (S : Type 0) : Type 0 where
  pub source : Source S
  pub bytes_left : ℕ
  pub errmsg : Option Errmsg

-- The argument `buf` of `pb_read`: NULL, or an array of `count` bytes at least, whose new content
-- is the result.
pub data Dest : Type 0 where
  null into : Dest

-- The first `n` bytes that a user's callback stored, as pb_byte_t.
abbrev pub stored : ℕ → (ℕ → ℕ) → List ℕ
stored zero f = []
stored (suc n) f = f 0 % 256 ∷ stored n (λ i. f (suc i))

abbrev pub first_byte : List ℕ → ℕ
first_byte [] = 0
first_byte (b ∷ bs) = b

module _ {S : Type 0} where
  abbrev pub set_error : Errmsg → Istream S → Istream S
  set_error e s = record s { errmsg = keep_first s.errmsg e }

  -- `PB_RETURN_ERROR`.
  abbrev pub return_error : {A : Type 0} → Errmsg → M (Istream S) A
  return_error e s = failed (set_error e s)

  -- `if (!call) PB_RETURN_ERROR(stream, e);`
  abbrev pub with_error : {A : Type 0} → Errmsg → Res (Istream S) A → Res (Istream S) A
  with_error e (done a t) = done a t
  with_error e (failed t) = failed (set_error e t)
  with_error e fault = fault

  abbrev pub or_error : {A : Type 0} → Errmsg → M (Istream S) A → M (Istream S) A
  or_error e m s = with_error e (m s)

  abbrev pub user_outcome :
      (S → ℕ → ℕ → UserRead S) → ℕ → Istream S → UserRead S → Res (Istream S) (List ℕ)
  user_outcome f count s r =
      let t : Istream S = record s { source = user f r.state; bytes_left = r.bytes_left } in
      if r.ok then done (stored count r.bytes) t else failed t

  -- `stream->callback(stream, buf, count)`.
  abbrev pub call : Source S → ℕ → M (Istream S) (List ℕ)
  call (buf_read bytes) count s =
      if leb count (length bytes)
      then done (take count bytes) (record s { source = buf_read (drop count bytes) })
      else fault
  call (user f state) count s = user_outcome f count s (f state s.bytes_left count)

  -- `stream->bytes_left -= count`, on size_t.
  abbrev pub lower_bytes_left : ℕ → Istream S → Istream S
  lower_bytes_left count s = record s { bytes_left = (s.bytes_left + 2 ^ 64 - count) % 2 ^ 64 }

  abbrev pub count_read : {A : Type 0} → ℕ → A → M (Istream S) A
  count_read count bytes s = done bytes (lower_bytes_left count s)

  -- `pb_read` from its second `#ifndef` on.
  unfoldable pub read_checked : ℕ → M (Istream S) (List ℕ)
  read_checked count s =
      if ltb s.bytes_left count
      then return_error end_of_stream s
      else (or_error io_error (call s.source count) >>= count_read count) s

  -- The loop over `tmp[16]`; each round lowers `count` by 16, so `count` is fuel enough.
  unfoldable pub skip_chunks : ℕ → ℕ → M (Istream S) (List ℕ)
  skip_chunks zero count = read_checked count
  skip_chunks (suc fuel) count =
      let round = read_checked 16 >>= λ _. skip_chunks fuel (count - 16) in
      if ltb 16 count then round else read_checked count

  abbrev pub skip : Source S → ℕ → M (Istream S) (List ℕ)
  skip (buf_read bytes) count = read_checked count
  skip (user f state) count = skip_chunks count count

  unfoldable pub pb_read : Dest → ℕ → M (Istream S) (List ℕ)
  pb_read null count s = skip s.source count s
  pb_read into count s = read_checked count s

  unfoldable pub pb_readbyte : M (Istream S) ℕ
  pb_readbyte s =
      if s.bytes_left == 0
      then return_error end_of_stream s
      else (or_error io_error (call s.source 1) >>= λ bs. count_read 1 (first_byte bs)) s

-- `pb_istream_from_buffer`, on the bytes from `buf` to the end of its array.
unfoldable pub pb_istream_from_buffer : {S : Type 0} → List ℕ → ℕ → Istream S
pb_istream_from_buffer buf bufsize = record {
  source = buf_read buf;
  bytes_left = bufsize;
  errmsg = none;
}
