-- ===== src/Pb/ScalarTrip.antt =====
-- A scalar that is encoded from one struct and decoded into another.
use solta.Base.{
  ℕ, ◌+◌, ◌*◌, ◌%◌, ◌≤◌, ◌<◌, ◌^◌, ◌≡◌, refl, arith, ap, sym, ◌∙◌, length, List, ◌++◌, Option,
  IsU64,
}
use solta.Base.{M, done, and_then, if◌then◌else◌, ◌==◌}
use solta.Pb.Errmsg.{Errmsg}
use solta.Pb.Istream.Buffer.{at}
use solta.Pb.Ostream.{Ostream}
use solta.Pb.Memory.{Memory, IsMemory, distance, store, load, load_lt, load-store, store-outside}
use solta.Pb.RoundTrip.{
  Appends, pb_decode_varint-pb_encode_varint, pb_decode_svarint-pb_encode_svarint,
}
use solta.Pb.Decode.Scalar.{
  Decoding, sign_extend, put_sized, pb_dec_varint, pb_dec_uvarint, pb_dec_svarint, with_memory,
}
use solta.Pb.Encode.{pb_encode_varint, pb_encode_svarint}
use solta.Pb.Encode.Scalar.{encode_sized, pb_enc_varint, pb_enc_uvarint, pb_enc_svarint}

-- The widths of integer fields.
pub data Width : Type 0 where
  one two four eight : Width

abbrev pub size_of : Width → ℕ
size_of one = 1
size_of two = 2
size_of four = 4
size_of eight = 8

widened : (w : Width) (v : ℕ) → v < 256 ^ size_of w → IsU64 (sign_extend (size_of w) v)
widened one v h = ground arith
widened two v h = ground arith
widened four v h = ground arith
widened eight v h = ground arith

-- A value that the cast keeps is stored without an error.
put_sized-done :
    {S : Type 0} (w : Width) (cast : ℕ → ℕ → ℕ) (dest value : ℕ) (s : Decoding S)
    → cast (size_of w) value ≡ value
    → IsU64 value
    → put_sized cast (size_of w) dest value s
      ≡ done tt
          (record s { memory = store (size_of w) dest (value % 2 ^ (8 * size_of w)) s.memory })
put_sized-done one cast dest value s h u = ground (arith, h)
put_sized-done two cast dest value s h u = ground (arith, h)
put_sized-done four cast dest value s h u = ground (arith, h)
put_sized-done eight cast dest value s h u = ground (arith, h)

encode_sized-width :
    {S : Type 0} (w : Width) (encode : ℕ → M (Ostream S) (Unit {0})) (widen : ℕ → ℕ → ℕ) (src : ℕ)
    (mem : Memory)
    → widen 8 (load 8 src mem) ≡ load 8 src mem
    → encode_sized encode widen (size_of w) src mem
      ≡ encode (widen (size_of w) (load (size_of w) src mem))
encode_sized-width one encode widen src mem h = refl
encode_sized-width two encode widen src mem h = refl
encode_sized-width four encode widen src mem h = refl
encode_sized-width eight encode widen src mem h = ap encode (sym h)

sign_extend_twice :
    (w : Width) (v : ℕ)
    → v < 256 ^ size_of w
    → (sign_extend (size_of w) (sign_extend (size_of w) v) ≡ sign_extend (size_of w) v)
      × (sign_extend (size_of w) v % 2 ^ (8 * size_of w) ≡ v)
sign_extend_twice one v h = (ground arith, ground arith)
sign_extend_twice two v h = (ground arith, ground arith)
sign_extend_twice four v h = (ground arith, ground arith)
sign_extend_twice eight v h = (ground arith, ground arith)

-- The cast to int32_t of a narrower value.
sign_extend_int32 :
    (w : Width) (v : ℕ)
    → v < 256 ^ size_of w
    → (if size_of w == 8
        then sign_extend (size_of w) v
        else sign_extend 4 (sign_extend (size_of w) v))
      ≡ sign_extend (size_of w) v
sign_extend_int32 one v h = ground arith
sign_extend_int32 two v h = ground arith
sign_extend_int32 four v h = ground arith
sign_extend_int32 eight v h = ground arith

widths : (w : Width) → (size_of w ≤ 8) × (256 ^ size_of w ≤ 2 ^ 64)
widths one = (omega arith, omega arith)
widths two = (omega arith, omega arith)
widths four = (omega arith, omega arith)
widths eight = (omega arith, omega arith)

kept : (w : Width) (v : ℕ) → v < 256 ^ size_of w → v % 2 ^ (8 * size_of w) ≡ v
kept one v h = omega arith
kept two v h = omega arith
kept four v h = omega arith
kept eight v h = omega arith

abbrev scalar : Width → ℕ → Memory → ℕ
scalar w src mem = load (size_of w) src mem

-- `(uintN_t)value`.
abbrev unsigned : ℕ → ℕ → ℕ
unsigned size v = v % 2 ^ (8 * size)

sign_extend64 :
    (src : ℕ) (mem : Memory) → IsMemory mem → sign_extend 8 (load 8 src mem) ≡ load 8 src mem
sign_extend64 src mem b = ground (arith, load_lt 8 src mem b)

-- The streams as in RoundTrip; `src` is the scalar in the memory `mem`, and `dest` the place for it
-- in the memory `mem'`.
module _ {S : Type 0} (stored rest : List ℕ) (room limit written left : ℕ) (e e' : Option Errmsg)
    (small : limit < 2 ^ 64) (w : Width) (src dest : ℕ) (mem mem' : Memory)
    (bytes_only : IsMemory mem) (place : dest < 2 ^ 64) (fits : 10 ≤ room)
    (under : written + 10 ≤ limit) (few : 10 + left < 2 ^ 64) where
  abbrev before : List ℕ → Decoding S
  before bytes = record { stream = at (bytes ++ rest) (left + length bytes) e'; memory = mem' }

  abbrev after : Memory → Decoding S
  after new = record { stream = at rest left e'; memory = new }

  -- The writer appends bytes, the reader takes just these, and stores the scalar at `dest` and
  -- changes nothing else.
  abbrev pub Carries : M (Ostream S) (Unit {0}) → M (Decoding S) (Unit {0}) → Type 0
  Carries write read =
      (bytes : List ℕ) × (new : Memory) × Appends {S = S} stored rest room limit written left e e'
        small write bytes
      × (read (before bytes) ≡ done tt (after new))
      × (load (size_of w) dest new ≡ scalar w src mem)
      × ((x : ℕ) → x < 2 ^ 64 → size_of w ≤ distance dest x → new x ≡ mem' x)

  carry :
      (write : M (Ostream S) (Unit {0})) (read : M (Decoding S) (Unit {0})) (bytes : List ℕ)
      (value : ℕ)
      → Appends {S = S} stored rest room limit written left e e' small write bytes
      → read (before bytes)
        ≡ done tt (after (store (size_of w) dest (value % 2 ^ (8 * size_of w)) mem'))
      → value % 2 ^ (8 * size_of w) ≡ scalar w src mem
      → Carries write read
  carry write read bytes value a r same = (
    bytes,
    store (size_of w) dest (scalar w src mem) mem',
    a,
    r ∙ ap (λ n. done tt (after (store (size_of w) dest n mem'))) same,
    load-store (size_of w) dest (scalar w src mem) mem' place (widths w).0
        (load_lt (size_of w) src mem bytes_only),
    λ x k far. store-outside (size_of w) dest (scalar w src mem) x mem' place k far,
  )

  -- What `pb_enc_uvarint` writes for an unsigned field of 8, 16, 32 or 64 bits, `pb_dec_uvarint` of
  -- that size reads back without an error, if the array and `max_size` have room for ten bytes: the
  -- memory then holds the same number at `dest`, and no byte outside of it has changed. The source memory holds bytes, and
  -- `dest` and both limits are below 2 ^ 64.
  pub pb_dec_uvarint-pb_enc_uvarint :
      Carries (pb_enc_uvarint (size_of w) src mem) (pb_dec_uvarint (size_of w) dest)
  unfolding pb_enc_uvarint pb_dec_uvarint
  pb_dec_uvarint-pb_enc_uvarint =
      let v : ℕ = scalar w src mem in
      let low = load_lt (size_of w) src mem bytes_only in
      let u : IsU64 v = omega (arith, low, (widths w).1) in
      let same = kept w v low in
      let (bytes, short, a, r) =
        pb_decode_varint-pb_encode_varint {S = S} stored rest room limit written left e e' small v u
          fits under few in
      carry (pb_enc_uvarint (size_of w) src mem) (pb_dec_uvarint (size_of w) dest) bytes v
        (rw (encode_sized-width w pb_encode_varint (λ size value. value) src mem refl) a)
        (ap (λ q. and_then (with_memory mem' q) (put_sized unsigned (size_of w) dest)) r
          ∙ put_sized-done w unsigned dest v (after mem') same u)
        same

  -- What `pb_enc_varint` writes for a signed field of 8, 16, 32 or 64 bits, `pb_dec_varint` of that
  -- size reads back without an error, if the array and `max_size` have room for ten bytes: the memory
  -- then holds the same pattern at `dest`, and no byte outside of it has changed. The source memory holds bytes, and
  -- `dest` and both limits are below 2 ^ 64.
  pub pb_dec_varint-pb_enc_varint :
      Carries (pb_enc_varint (size_of w) src mem) (pb_dec_varint (size_of w) dest)
  unfolding pb_enc_varint pb_dec_varint
  pb_dec_varint-pb_enc_varint =
      let v : ℕ = scalar w src mem in
      let low = load_lt (size_of w) src mem bytes_only in
      let wide : ℕ = sign_extend (size_of w) v in
      let u : IsU64 wide = widened w v low in
      let (again, same) = sign_extend_twice w v low in
      let (bytes, short, a, r) =
        pb_decode_varint-pb_encode_varint {S = S} stored rest room limit written left e e' small
          wide u fits under few in
      carry (pb_enc_varint (size_of w) src mem) (pb_dec_varint (size_of w) dest) bytes wide
        (rw
          (encode_sized-width w pb_encode_varint sign_extend src mem
            (sign_extend64 src mem bytes_only))
          a)
        (ap
            (λ q. and_then (with_memory mem' q) (λ value.
              put_sized sign_extend (size_of w) dest
                (if size_of w == 8 then value else sign_extend 4 value)))
            r
          ∙ ap (λ n. put_sized sign_extend (size_of w) dest n (after mem'))
              (sign_extend_int32 w v low)
          ∙ put_sized-done w sign_extend dest wide (after mem') again u)
        same

  -- What `pb_enc_svarint` writes for a signed field of 8, 16, 32 or 64 bits, `pb_dec_svarint` of that
  -- size reads back without an error, if the array and `max_size` have room for ten bytes: the memory
  -- then holds the same pattern at `dest`, and no byte outside of it has changed. The source memory holds bytes, and
  -- `dest` and both limits are below 2 ^ 64.
  pub pb_dec_svarint-pb_enc_svarint :
      Carries (pb_enc_svarint (size_of w) src mem) (pb_dec_svarint (size_of w) dest)
  unfolding pb_enc_svarint pb_dec_svarint
  pb_dec_svarint-pb_enc_svarint =
      let v : ℕ = scalar w src mem in
      let low = load_lt (size_of w) src mem bytes_only in
      let wide : ℕ = sign_extend (size_of w) v in
      let u : IsU64 wide = widened w v low in
      let (again, same) = sign_extend_twice w v low in
      let (bytes, short, a, r) =
        pb_decode_svarint-pb_encode_svarint {S = S} stored rest room limit written left e e' small
          wide u fits under few in
      carry (pb_enc_svarint (size_of w) src mem) (pb_dec_svarint (size_of w) dest) bytes wide
        (rw
          (encode_sized-width w pb_encode_svarint sign_extend src mem
            (sign_extend64 src mem bytes_only))
          a)
        (ap (λ q. and_then (with_memory mem' q) (put_sized sign_extend (size_of w) dest)) r
          ∙ put_sized-done w sign_extend dest wide (after mem') again u)
        same
