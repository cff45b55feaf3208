-- ===== src/Pb/Substream.antt =====
-- Streams of limited length inside a stream: `pb_make_string_substream` and
-- `pb_close_string_substream` of SOLTA/Pods/nanopb/pb_decode.c.
pub mod Safety
use solta.Base.{ℕ, ◌-◌, ltb, ◌==◌, if◌then◌else◌, List, Res, done, failed, fault, M, pure, ◌>>=◌}
use solta.Pb.Errmsg.{parent_stream_too_short}
use solta.Pb.Istream.{Istream, Dest, null, return_error, pb_read}
use solta.Pb.Varint.{pb_decode_varint32}

module _ {S : Type 0} where
  -- The result is `*substream`.
  abbrev pub split_off : ℕ → M (Istream S) (Istream S)
  split_off size s =
      if ltb s.bytes_left size
      then return_error parent_stream_too_short s
      else done (record s { bytes_left = size }) (record s { bytes_left = s.bytes_left - size })

  unfoldable pub pb_make_string_substream : M (Istream S) (Istream S)
  pb_make_string_substream = do size ← pb_decode_varint32; split_off size

  -- `stream->state = substream->state; stream->errmsg = substream->errmsg`; nothing of that after a
  -- failed read.
  abbrev pub rejoin : Res (Istream S) (List ℕ) → M (Istream S) (Unit {0})
  rejoin (done bytes t) s = done tt (record s { source = t.source; errmsg = t.errmsg })
  rejoin (failed t) s = failed s
  rejoin fault s = fault

  unfoldable pub pb_close_string_substream : Istream S → M (Istream S) (Unit {0})
  pb_close_string_substream substream s =
      rejoin
        (if substream.bytes_left == 0
          then done List.[] substream
          else pb_read null substream.bytes_left substream)
        s
