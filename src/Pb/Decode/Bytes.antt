-- ===== src/Pb/Decode/Bytes.antt =====
-- The decoders of byte strings: `pb_dec_bytes`, `pb_dec_string` and `pb_dec_fixed_length_bytes` of
-- SOLTA/Pods/nanopb/pb_decode.c. A user's callback that fails is taken to have stored nothing.
use solta.Base.{ℕ, zero, suc, ◌+◌, ◌%◌, ◌^◌, ltb, ◌==◌, if◌then◌else◌, List, [], ◌∷◌}
use solta.Base.{Res, done, failed, fault, M, ◌>>=◌, ◌>>◌}
use solta.Pb.Errmsg.{bytes_overflow, size_too_large, no_malloc_support, string_overflow}
use solta.Pb.Errmsg.{incorrect_fixed_length}
use solta.Pb.Istream.{into, return_error, pb_read}
use solta.Pb.Memory.{Memory, next_address, set_byte, store}
use solta.Pb.Varint.{pb_decode_varint32}
use solta.Pb.Field.Atype
use solta.Pb.Field.{Field, atype, pb_size_max}
use solta.Pb.Field.Iter.{offset}
use solta.Pb.Encode.Bytes.{alloc_size}
use solta.Pb.Decode.Scalar.{Decoding, on_stream, put}

-- `memcpy` from bytes.
unfoldable pub store_bytes : List ℕ → ℕ → Memory → Memory
store_bytes [] a mem = mem
store_bytes (b ∷ bytes) a mem = set_byte a b (store_bytes bytes (next_address a) mem)

-- `memset(a, 0, n)`.
unfoldable pub clear : ℕ → ℕ → Memory → Memory
clear zero a mem = mem
clear (suc n) a mem = set_byte a 0 (clear n (next_address a) mem)

module _ {S : Type 0} where
  abbrev pub change : (Memory → Memory) → M (Decoding S) (Unit {0})
  change f s = done tt (record s { memory = f s.memory })

  -- `pb_read(stream, dest, count)`.
  abbrev pub read_to : ℕ → ℕ → M (Decoding S) (Unit {0})
  read_to dest count = on_stream (pb_read into count) >>= λ bytes. change (store_bytes bytes dest)

  -- `pb_dec_bytes` after the length.
  abbrev pub bytes_sized : Field → ℕ → ℕ → M (Decoding S) (Unit {0})
  bytes_sized field dest size =
      if ltb pb_size_max size
      then on_stream (return_error bytes_overflow)
      else if ltb (alloc_size size) size
      then on_stream (return_error size_too_large)
      else if atype field.type == Atype.pointer
      then on_stream (return_error no_malloc_support)
      else if ltb field.data_size (alloc_size size)
      then on_stream (return_error bytes_overflow)
      else (put 4 dest size >> read_to (offset dest 4) size)

  unfoldable pub pb_dec_bytes : Field → ℕ → M (Decoding S) (Unit {0})
  pb_dec_bytes field dest = on_stream pb_decode_varint32 >>= bytes_sized field dest

  -- The last two lines of `pb_dec_string`: the text is terminated, whether it was read or not.
  abbrev pub terminate : ℕ → Res (Decoding S) (Unit {0}) → Res (Decoding S) (Unit {0})
  terminate a (done x s) = done x (record s { memory = store 1 a 0 s.memory })
  terminate a (failed s) = failed (record s { memory = store 1 a 0 s.memory })
  terminate a fault = fault

  abbrev pub read_text : ℕ → ℕ → M (Decoding S) (Unit {0})
  read_text dest size s = terminate (offset dest size) (read_to dest size s)

  -- `pb_dec_string` after the length.
  abbrev pub string_sized : Field → ℕ → ℕ → M (Decoding S) (Unit {0})
  string_sized field dest size =
      let alloc = (size + 1) % 2 ^ 32 in
      if ltb alloc size
      then on_stream (return_error size_too_large)
      else if atype field.type == Atype.pointer
      then on_stream (return_error no_malloc_support)
      else if ltb field.data_size alloc
      then on_stream (return_error string_overflow)
      else read_text dest size

  unfoldable pub pb_dec_string : Field → ℕ → M (Decoding S) (Unit {0})
  pb_dec_string field dest = on_stream pb_decode_varint32 >>= string_sized field dest

  -- `pb_dec_fixed_length_bytes` after the length.
  abbrev pub fixed_sized : Field → ℕ → ℕ → M (Decoding S) (Unit {0})
  fixed_sized field dest size =
      if ltb pb_size_max size
      then on_stream (return_error bytes_overflow)
      else if size == 0
      then change (clear field.data_size dest)
      else if size == field.data_size
      then read_to dest field.data_size
      else on_stream (return_error incorrect_fixed_length)

  unfoldable pub pb_dec_fixed_length_bytes : Field → ℕ → M (Decoding S) (Unit {0})
  pb_dec_fixed_length_bytes field dest = on_stream pb_decode_varint32 >>= fixed_sized field dest
