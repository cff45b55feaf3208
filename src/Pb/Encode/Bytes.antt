-- ===== src/Pb/Encode/Bytes.antt =====
-- The encoders of byte strings: `pb_enc_bytes`, `pb_enc_string` and `pb_enc_fixed_length_bytes` of
-- SOLTA/Pods/nanopb/pb_encode.c. A NULL pointer is the address 0.
use solta.Base.{ℕ, zero, suc, ◌+◌, ◌-◌, ◌%◌, ◌^◌, ltb, ◌==◌, if◌then◌else◌, ◌&&◌, true, false}
use solta.Base.{List, [], ◌∷◌, M}
use solta.Pb.Errmsg.{bytes_size_exceeded}
use solta.Pb.Ostream.{Ostream, return_error}
use solta.Pb.Memory.{Memory, next_address, load}
use solta.Pb.Field.Atype
use solta.Pb.Field.{Field, atype}
use solta.Pb.Field.Iter.{offset}
use solta.Pb.Encode.{pb_encode_string}

-- The `n` bytes from an address on, as a function that is given the pointer reads them.
unfoldable pub bytes_at : ℕ → ℕ → Memory → List ℕ
bytes_at zero a mem = []
bytes_at (suc n) a mem = mem a ∷ bytes_at n (next_address a) mem

-- The `while` loop of `pb_enc_string`: the length of a text, up to a limit.
unfoldable pub text_length : ℕ → ℕ → Memory → ℕ
text_length zero p mem = 0
text_length (suc max_size) p mem = elim (mem p == 0) [
  | true ↦ 0
  | false ↦ suc (text_length max_size (next_address p) mem)
]

-- PB_BYTES_ARRAY_T_ALLOCSIZE: the bytes stand behind a 32-bit size.
abbrev pub alloc_size : ℕ → ℕ
alloc_size n = (n + 4) % 2 ^ 64

module _ {S : Type 0} where
  unfoldable pub pb_enc_bytes : Field → ℕ → Memory → M (Ostream S) (Unit {0})
  pb_enc_bytes field src mem =
      let size = load 4 src mem in
      if src == 0
      then pb_encode_string [] 0
      else if atype field.type == Atype.static && ltb field.data_size (alloc_size size)
      then return_error bytes_size_exceeded
      else pb_encode_string (bytes_at size (offset src 4) mem) size

  unfoldable pub pb_enc_string : Field → ℕ → Memory → M (Ostream S) (Unit {0})
  pb_enc_string field src mem =
      let max_size = if atype field.type == Atype.pointer then 2 ^ 64 - 1 else field.data_size in
      let size = if src == 0 then 0 else text_length max_size src mem in
      pb_encode_string (bytes_at size src mem) size

  unfoldable pub pb_enc_fixed_length_bytes : Field → ℕ → Memory → M (Ostream S) (Unit {0})
  pb_enc_fixed_length_bytes field src mem =
      pb_encode_string (bytes_at field.data_size src mem) field.data_size
